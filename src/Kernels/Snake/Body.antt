-- ===== src/Kernels/Snake/Body.antt =====
-- The ring of positions is the queue of the tiles that the snake covers.
use ic_competition.Base.{
  ℕ, zero, suc, ◌+◌, ◌<◌, ◌≤◌, ◌≡◌, refl, ap, subst, inl, inr, ◌==◌, if◌then◌else◌, true, false,
  arith, Bool-cases,
}
use ic_competition.Kernels.Snake.{Dir, Point, Snake, same_point, back, neighbour, move_snake, bites}

abbrev pub front : Snake → Point
front s = s.body s.index

-- The tile `i` behind the head.
abbrev pub cell : Snake → ℕ → Point
cell s i = s.body (back s.index i)

pub cell-front : (s : Snake) → cell s 0 ≡ front s
cell-front s = let same : back s.index 0 ≡ s.index = ground arith in ap s.body same

abbrev pub Covers : Point → Point → Type 0
Covers p q = (p.x ≡ q.x) × (p.y ≡ q.y)

abbrev pub next_index : Snake → ℕ
next_index s = if s.index + 1 == 100 then 0 else s.index + 1

pub move_snake-front : (dir : Dir) (s : Snake) → front (move_snake dir s) ≡ neighbour dir (front s)
move_snake-front dir s =
    let here : (next_index s == next_index s) ≡ true = ground arith in rw here refl

pub move_snake-cell :
    (dir : Dir) (s : Snake) (i : ℕ)
    → s.index < 100
    → i < 99
    → cell (move_snake dir s) (i + 1) ≡ cell s i
move_snake-cell dir s i hi lt =
    let behind : (back (next_index s) (i + 1) == next_index s) ≡ false = ground arith in
    let old : back (next_index s) (i + 1) ≡ back s.index i = ground arith in
    rw behind (ap s.body old)

pub record Bite (r i : ℕ) (head : Point) (cells : ℕ → Point) : Type 0 where
  pub place : ℕ
  pub from : i ≤ place
  pub before : place < i + r
  pub covers : Covers head (cells place)

pub bites-Bite :
    (r i : ℕ) (head : Point) (s : Snake) → bites r i head s ≡ true → Bite r i head (cell s)
unfolding bites
bites-Bite zero i head s h = absurd (ground arith)
bites-Bite (suc r) i head s h = elim (Bool-cases (same_point head (cell s i))) [
  | inl e ↦ record {
    place = i;
    from = omega arith;
    before = omega arith;
    covers = (ground arith, ground arith);
  }
  | inr ne ↦
      let rest = bites-Bite r (i + 1) head s (ground arith) in
      record {
        place = rest.place;
        from = omega (arith, rest.from);
        before = omega (arith, rest.before);
        covers = rest.covers;
      }
]

pub Bite-bites :
    (r i : ℕ) (head : Point) (s : Snake) → Bite r i head (cell s) → bites r i head s ≡ true
unfolding bites
Bite-bites zero i head s b = absurd (omega (arith, b.from, b.before))
Bite-bites (suc r) i head s b = elim (Bool-cases (i == b.place)) [
  | inl here ↦
      let same : b.place ≡ i = ground arith in
      let covers = subst (λ k. Covers head (cell s k)) same b.covers in
      let e : same_point head (cell s i) ≡ true = ground (arith, covers.0, covers.1) in rw e refl
  | inr later ↦
      let rest = Bite-bites r (i + 1) head s (record {
        place = b.place;
        from = ground (arith, b.from);
        before = omega (arith, b.before);
        covers = b.covers;
      }) in
      ground arith
]
