-- ===== src/Kernels/Typing/Hit.antt =====
-- Which letter a key hits.
use ic_competition.Base.{
  ℕ, ◌+◌, ◌-◌, ◌*◌, ◌<◌, ◌≤◌, ◌≡◌, ◌≢◌, Option, none, some, pos, neg, ◌<ℤ◌, ◌≤ℤ◌,
}
use ic_competition.Kernels.Typing.{Character, Game}

-- The letter is `ch` and falls.
abbrev pub Falls : ℕ → Character → Type 0
Falls ch c = (ch ≡ c.ch) × (pos 0 <ℤ c.v)

-- The letter `m` is the first of the lowest ones that fall, of those before `n`.
pub record Lowest (ch n m : ℕ) (chars : ℕ → Character) : Type 0 where
  pub bound : m < n
  pub falls : Falls ch (chars m)
  pub lowest : (i : ℕ) → i < n → Falls ch (chars i) → (chars i).y ≤ℤ (chars m).y
  pub first : (i : ℕ) → i < m → Falls ch (chars i) → (chars i).y <ℤ (chars m).y

-- What the loop has found of the letters before `n`.
unfoldable pub Found : ℕ → ℕ → Option ℕ → (ℕ → Character) → Type 0
Found ch n none chars = (i : ℕ) → i < n → Falls ch (chars i) → ⊥
Found ch n (some m) chars = Lowest ch n m chars

-- The key hit the letter `m`, which from now on rises by a 30th of the way to the bottom, rounded
-- down; nothing else is changed.
pub record IsHit (h ch m : ℕ) (g g' : Game) : Type 0 where
  pub chosen : Lowest ch 128 m g.chars
  pub speed : (s : ℕ) × ((g'.chars m).v ≡ neg (pos s)) × (30 * s ≤ h - 15) × (h - 15 < 30 * s + 30)
  pub rises : 45 ≤ h → (g'.chars m).v <ℤ pos 0
  pub same_letter :
      ((g'.chars m).ch ≡ (g.chars m).ch)
      × ((g'.chars m).x ≡ (g.chars m).x)
      × ((g'.chars m).y ≡ (g.chars m).y)
      × ((g'.chars m).t ≡ (g.chars m).t)
  pub others : (i : ℕ) → i ≢ m → g'.chars i ≡ g.chars i
  pub hit : g'.hit ≡ g.hit + 1
  pub counters : (g'.wrong ≡ g.wrong) × (g'.miss ≡ g.miss)

pub record IsWrong (ch : ℕ) (g g' : Game) : Type 0 where
  pub no_letter : (i : ℕ) → i < 128 → Falls ch (g.chars i) → ⊥
  pub wrong : g'.wrong ≡ g.wrong + 1
  pub kept : (g'.chars ≡ g.chars) × (g'.hit ≡ g.hit) × (g'.miss ≡ g.miss)
