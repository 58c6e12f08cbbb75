-- ===== src/Programs/Life/Rule.antt =====
-- The rule of the game.
use ic_competition.Base.{
  ℕ, zero, suc, ◌+◌, ◌-◌, ◌%◌, ◌<◌, ◌≡◌, ap, ◌∙◌, ◌==◌, ltb, leb, if◌then◌else◌, not, ◌&&◌, ◌||◌,
  arith, Bool-cases, inl, inr,
}
use native.Mathlib.Nat.{mod-eq-sub-mod, mod-eq_of_lt}
use ic_competition.Programs.Life.{
  Board, count_row, count_rows, new_cell, set_cell, fill_row, fill_rows, evolve,
}

fill_row-next :
    (k : ℕ) (cell : ℕ → ℕ → ℕ) (y x : ℕ) (b : Board) (y' x' : ℕ)
    → (if y == y' && (leb (x + 1) x' && ltb x' (x + 1 + k))
        then cell y' x'
        else set_cell b y x (cell y x) y' x')
      ≡ (if y == y' && (leb x x' && ltb x' (x + suc k)) then cell y' x' else b y' x')
fill_row-next k cell y x b y' x' = ground arith

fill_row-cell :
    (k : ℕ) (cell : ℕ → ℕ → ℕ) (y x : ℕ) (b : Board) (y' x' : ℕ)
    → fill_row k cell y x b y' x'
      ≡ (if y == y' && (leb x x' && ltb x' (x + k)) then cell y' x' else b y' x')
unfolding fill_row
fill_row-cell zero cell y x b y' x' = ground arith
fill_row-cell (suc k) cell y x b y' x' =
    fill_row-cell k cell y (x + 1) (set_cell b y x (cell y x)) y' x'
    ∙ fill_row-next k cell y x b y' x'

fill_rows-cell :
    (k w : ℕ) (cell : ℕ → ℕ → ℕ) (y : ℕ) (b : Board) (y' x' : ℕ)
    → fill_rows k w cell y b y' x'
      ≡ (if leb y y' && ltb y' (y + k) && ltb x' w then cell y' x' else b y' x')
unfolding fill_rows
fill_rows-cell zero w cell y b y' x' = ground arith
fill_rows-cell (suc k) w cell y b y' x' =
    fill_rows-cell k w cell (y + 1) (fill_row w cell y 0 b) y' x'
    ∙ ground (arith, fill_row-cell w cell y 0 b y' x')

-- 1 for a cell that lives.
abbrev pub alive : Board → ℕ → ℕ → ℕ
alive u y x = if u y x == 0 then 0 else 1

-- The living cells among the eight around a cell of the torus.
abbrev pub around : ℕ → ℕ → Board → ℕ → ℕ → ℕ
around w h u y x =
    let up = (y + h - 1) % h in
    let down = (y + 1) % h in
    let left = (x + w - 1) % w in
    let right = (x + 1) % w in
    alive u up left
    + alive u up x
    + alive u up right
    + (alive u y left + alive u y right)
    + (alive u down left + alive u down x + alive u down right)

-- A cell lives on with two or three living neighbours, and is born with three.
abbrev pub conway : ℕ → ℕ → Board → ℕ → ℕ → ℕ
conway w h u y x =
    let n = around w h u y x in
    if u y x == 0 then (if n == 3 then 1 else 0) else if n == 2 then 1 else if n == 3 then 1 else 0

mod-around : (n w : ℕ) → (n + w) % w ≡ n % w
mod-around n w =
    let down : n + w - w ≡ n = omega arith in
    mod-eq-sub-mod {n = n + w} {m = w} (omega arith) ∙ ap (λ k. k % w) down

mod-back : (x w : ℕ) → x < w → (x + 1 + w - 1) % w ≡ x
mod-back x w h =
    let same : x + 1 + w - 1 ≡ x + w = omega arith in
    ap (λ k. k % w) same ∙ mod-around x w ∙ mod-eq_of_lt h

mod-next : (x w : ℕ) → (x + 2 + w - 1) % w ≡ (x + 1) % w
mod-next x w =
    let same : x + 2 + w - 1 ≡ x + 1 + w = omega arith in
    ap (λ k. k % w) same ∙ mod-around (x + 1) w

mod-same : (x w : ℕ) → (x + 0 + w - 1) % w ≡ (x + w - 1) % w
mod-same x w = let same : x + 0 + w - 1 ≡ x + w - 1 = omega arith in ap (λ k. k % w) same

three_steps :
    (a b c n : ℕ)
    → (let n1 = if a == 0 then n else n + 1 in
        let n2 = if b == 0 then n1 else n1 + 1 in if c == 0 then n2 else n2 + 1)
      ≡ n + ((if a == 0 then 0 else 1) + (if b == 0 then 0 else 1) + (if c == 0 then 0 else 1))
three_steps a b c n = ground arith

-- The living cells of three neighbouring columns in a row.
abbrev in_row : ℕ → Board → ℕ → ℕ → ℕ
in_row w u r x = alive u r ((x + w - 1) % w) + alive u r x + alive u r ((x + 1) % w)

count_row-three :
    (w h : ℕ) (u : Board) (y x j r n : ℕ)
    → x < w
    → (y + j + h - 1) % h ≡ r
    → count_row 3 w h u y x j 0 n ≡ n + in_row w u r x
unfolding count_row
count_row-three w h u y x j r n lt row =
    rw (row, mod-same x w, mod-back x w lt, mod-next x w)
      (three_steps (u r ((x + w - 1) % w)) (u r x) (u r ((x + 1) % w)) n)

count_rows-around :
    (w h : ℕ) (u : Board) (y x : ℕ)
    → x < w
    → y < h
    → count_rows 3 w h u y x 0 0 ≡ around w h u y x + alive u y x
unfolding count_rows
count_rows-around w h u y x xw yh =
    let up = (y + h - 1) % h in
    let down = (y + 1) % h in
    rw
      (
        count_row-three w h u y x 0 up 0 xw (mod-same y h),
        count_row-three w h u y x 1 y (0 + in_row w u up x) xw (mod-back y h yh),
        count_row-three w h u y x 2 down (0 + in_row w u up x + in_row w u y x) xw (mod-next y h),
      )
      (omega arith)

-- The test of evolve() on a cell and the count.
abbrev counted : ℕ → ℕ → ℕ
counted c m = if m == 3 || (m == 2 && not (c == 0)) then 1 else 0

by_rule :
    (c n : ℕ)
    → counted c
        (if c == 0 then n + (if c == 0 then 0 else 1) else n + (if c == 0 then 0 else 1) - 1)
      ≡ (if c == 0
          then (if n == 3 then 1 else 0)
          else if n == 2
          then 1
          else if n == 3
          then 1
          else 0)
by_rule c n = ground arith

new_cell-conway :
    (w h : ℕ) (u : Board) (y x : ℕ) → x < w → y < h → new_cell w h u y x ≡ conway w h u y x
unfolding new_cell
new_cell-conway w h u y x xw yh =
    let n = around w h u y x in rw (count_rows-around w h u y x xw yh) (by_rule (u y x) n)

-- evolve() makes of every cell of the board what the rule of the game makes of it and the eight cells
-- around it on the torus, all at once, and changes nothing outside the board.
pub evolve-conway :
    (w h : ℕ) (univ new_ : Board) (y x : ℕ)
    → (evolve w h univ new_).0 y x ≡ (if ltb y h && ltb x w then conway w h univ y x else univ y x)
unfolding evolve
evolve-conway w h univ new_ y x =
    let made = fill_rows h w (new_cell w h univ) 0 new_ in
    fill_rows-cell h w made 0 univ y x ∙ elim (Bool-cases (ltb y h && ltb x w)) [
      | inl inside ↦
          let cell = fill_rows-cell h w (new_cell w h univ) 0 new_ y x in
          let rule = new_cell-conway w h univ y x (ground arith) (ground arith) in
          ground (arith, cell, rule)
      | inr outside ↦ ground arith
    ]
