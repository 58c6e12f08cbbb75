-- ===== src/Klib/Memory.antt =====
-- Byte-addressed memory, as the functions of klib/src/string.c read and write it. A pointer is an
-- address; C leaves pointer overflow undefined, so addresses are not wrapped.
use ic_competition.Base.{ℕ, ◌+◌, ◌≤◌, ◌≡◌, ◌≢◌, List, [], ◌∷◌, arith, ◌==◌, if◌then◌else◌, length}

abbrev pub Mem : Type 0
Mem = ℕ → ℕ

abbrev pub write : Mem → ℕ → ℕ → Mem
write m a v q = if a == q then v else m q

-- The characters `cs` stand at `s`, none of them NUL, and a NUL behind them.
pub data IsStr (m : Mem) : ℕ → List ℕ → Type 0 where
  nul : {s : ℕ} → m s ≡ 0 → IsStr m s []
  char : {s c : ℕ} {cs : List ℕ} → m s ≡ c → c ≢ 0 → IsStr m (s + 1) cs → IsStr m s (c ∷ cs)

-- A string survives writes outside its bytes.
pub IsStr-frame :
    {m : Mem} {s : ℕ} {cs : List ℕ} (g : Mem)
    → IsStr m s cs
    → ((a : ℕ) → s ≤ a → a ≤ s + length cs → g a ≡ m a)
    → IsStr g s cs
IsStr-frame g (nul {s} e) same = nul (ground (arith, same s))
IsStr-frame g (char {s} e ne r) same =
    char (ground (arith, same s)) ne
      (IsStr-frame g r (λ a lo hi. same a (omega arith) (omega arith)))

module _ {m : Mem} {s c : ℕ} {cs : List ℕ} where
  pub IsStr-head : IsStr m s (c ∷ cs) → m s ≡ c
  IsStr-head (char e ne r) = e

  pub IsStr-tail : IsStr m s (c ∷ cs) → IsStr m (s + 1) cs
  IsStr-tail (char e ne r) = r
