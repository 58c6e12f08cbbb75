-- ===== src/Klib/Stdio/Signs.antt =====
-- The width of a decimal field, and the number whose negation overflows.
use native.Mathlib.Decide.{dec_lt}
use Prim.Native.Nat.{max}
use ic_competition.Base.{
  ℕ, ◌+◌, ◌-◌, ◌^◌, ◌<◌, ◌≡◌, ◌≢◌, some, List, [], ◌∷◌, arith, if◌then◌else◌, ltb, length,
  length-append, length-replicate, replicate, false, lt→ltb,
}
use ic_competition.Klib.Stdio.{print_dec, dec_digits}
use ic_competition.Klib.Stdio.Numeral.{decimal}
use ic_competition.Klib.Stdio.Pieces.Render.{aligned, dec_text, print_dec_lem, padding-replicate}

-- The magnitude of the `int` with the pattern `n`.
abbrev pub magnitude : ℕ → ℕ
magnitude n = if ltb n (2 ^ 31) then n else 2 ^ 32 - n

abbrev pub sign_length : ℕ → ℕ
sign_length n = if ltb n (2 ^ 31) then 0 else 1

length-aligned :
    (pad width : ℕ) (ds : List ℕ) → length (aligned pad width ds) ≡ max width (length ds)
length-aligned pad width ds = omega (
  arith,
  length-append (replicate (width - length ds) pad) ds,
  length-replicate (width - length ds) pad,
)

length-dec_text :
    (pad width n : ℕ)
    → length (dec_text pad width n) ≡ sign_length n + max width (length (decimal (magnitude n)))
length-dec_text pad width n = elim (dec_lt n (2 ^ 31)) [
  | yes small ↦ rw (lt→ltb n (2 ^ 31) small) (omega (arith, length-aligned pad width (decimal n)))
  | no big ↦
      let high : ltb n (2 ^ 31) ≡ false = ground arith in
      rw high (omega (arith, length-aligned pad width (decimal (2 ^ 32 - n))))
]

-- A `%d` conversion of an `int` other than the least writes as many characters as the width or the
-- digits of the magnitude need, whichever is more, and one more for the sign of a negative number.
pub print_dec-length :
    (pad width n : ℕ)
    → n < 2 ^ 32
    → n ≢ 2 ^ 31
    → (s : List ℕ) × (print_dec pad width n ≡ some s)
      × (length s ≡ sign_length n + max width (length (decimal (magnitude n))))
print_dec-length pad width n h ne =
    (dec_text pad width n, print_dec_lem pad width n h ne, length-dec_text pad width n)

-- The least `int` is its own negation, and the digit loop ends after one character, which lies below
-- `0`: at every width the conversion writes the sign, the padding and a `(`.
pub print_dec_least :
    (pad width : ℕ) → print_dec pad width (2 ^ 31) ≡ some (b'-' ∷ aligned pad width (b'(' ∷ []))
unfolding print_dec dec_digits
print_dec_least pad width = rw (padding-replicate pad 1 width)
