-- ===== src/Kernels/Typing/Screen.antt =====
-- Every letter that is shown stays on the screen.
use ic_competition.Base.{ℕ, ◌+◌, ◌≤◌, ◌≢◌, pos, ◌≤ℤ◌}
use ic_competition.Kernels.Typing.{Character, Game, add_ℤ}

-- A letter that is shown, 8 wide and 16 high, lies between the sides, and between the top and the
-- bottom, of a screen `w` wide and `h` high.
abbrev pub IsInside : ℕ → ℕ → Character → Type 0
IsInside w h c = c.ch ≢ 0 → (c.x + 8 ≤ w) × (pos 0 ≤ℤ c.y) × (add_ℤ c.y (pos 16) ≤ℤ pos h)

abbrev pub IsOnScreen : ℕ → ℕ → Game → Type 0
IsOnScreen w h g = (i : ℕ) → IsInside w h (g.chars i)
