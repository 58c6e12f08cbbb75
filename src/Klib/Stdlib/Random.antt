-- ===== src/Klib/Stdlib/Random.antt =====
-- The state of rand never merges two sequences.
use ic_competition.Base.{ℕ, ◌+◌, ◌*◌, ◌%◌, ◌^◌, ◌<◌, ◌≡◌, arith, ◌∙◌, sym, ap}
use ic_competition.Klib.Stdlib.{rand, srand}

-- The inverse of the multiplier modulo 2 ^ 32 undoes a step.
unstep : ℕ → ℕ
unstep next = (next * 4005161829 + 4235699843) % 2 ^ 32

unstep-rand : (next : ℕ) → next < 2 ^ 32 → unstep (rand next).0 ≡ next
unfolding unstep rand
unstep-rand next h = omega arith

-- `rand` returns a number below 32768, and different states (as `srand` sets them) step to different
-- states, so no two seeds ever meet in one state.
pub rand-injective :
    (a b : ℕ)
    → a < 2 ^ 32
    → b < 2 ^ 32
    → (rand (srand a)).0 ≡ (rand (srand b)).0
    → (a ≡ b) × ((rand a).1 < 32768)
unfolding srand
rand-injective a b ha hb e =
    (sym (unstep-rand a ha) ∙ ap unstep e ∙ unstep-rand b hb, unfold rand in omega arith)
