-- ===== src/Programs/Life.antt =====
-- evolve() of am-kernels/kernels/demo/src/life/life.c, on a board of `w` columns and `h` rows. The
-- two arrays are functions from a row and a column, and do not overlap.
pub mod Rule
use ic_competition.Base.{
  ℕ, zero, suc, ◌+◌, ◌-◌, ◌%◌, ◌==◌, if◌then◌else◌, Bool, true, false, not, ◌&&◌, ◌||◌,
}

abbrev pub Board : Type 0
Board = ℕ → ℕ → ℕ

-- `if (univ[(y1 + h) % h][(x1 + w) % w]) n++;`, where `x1` is `x - 1 + i` and `y1` is `y - 1 + j`
abbrev pub step_n : ℕ → ℕ → Board → ℕ → ℕ → ℕ → ℕ → ℕ → ℕ
step_n w h univ y x j i n =
    if univ ((y + j + h - 1) % h) ((x + i + w - 1) % w) == 0 then n else n + 1

-- The loop over `x1` and that over `y1`, with the rounds left first.
unfoldable pub count_row : ℕ → ℕ → ℕ → Board → ℕ → ℕ → ℕ → ℕ → ℕ → ℕ
count_row zero w h univ y x j i n = n
count_row (suc k) w h univ y x j i n =
    count_row k w h univ y x j (i + 1) (step_n w h univ y x j i n)

unfoldable pub count_rows : ℕ → ℕ → ℕ → Board → ℕ → ℕ → ℕ → ℕ → ℕ
count_rows zero w h univ y x j n = n
count_rows (suc k) w h univ y x j n =
    count_rows k w h univ y x (j + 1) (count_row 3 w h univ y x j 0 n)

-- The value of `new[y][x]`.
unfoldable pub new_cell : ℕ → ℕ → Board → ℕ → ℕ → ℕ
new_cell w h univ y x =
    let n = count_rows 3 w h univ y x 0 0 in
    let m = if univ y x == 0 then n else n - 1 in
    if m == 3 || (m == 2 && not (univ y x == 0)) then 1 else 0

abbrev pub set_cell : Board → ℕ → ℕ → ℕ → Board
set_cell b y x v y' x' = if y == y' && x == x' then v else b y' x'

-- `for (y=0;y<h;y++) for (x=0;x<w;x++)` over the assignments of `cell`, with the rounds left first
unfoldable pub fill_row : ℕ → (ℕ → ℕ → ℕ) → ℕ → ℕ → Board → Board
fill_row zero cell y x b = b
fill_row (suc k) cell y x b = fill_row k cell y (x + 1) (set_cell b y x (cell y x))

unfoldable pub fill_rows : ℕ → ℕ → (ℕ → ℕ → ℕ) → ℕ → Board → Board
fill_rows zero w cell y b = b
fill_rows (suc k) w cell y b = fill_rows k w cell (y + 1) (fill_row w cell y 0 b)

-- The new `univ` and the new `new`.
unfoldable pub evolve : ℕ → ℕ → Board → Board → Board × Board
evolve w h univ new_ =
    let made = fill_rows h w (new_cell w h univ) 0 new_ in (fill_rows h w made 0 univ, made)
