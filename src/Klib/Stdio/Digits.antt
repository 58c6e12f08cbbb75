-- ===== src/Klib/Stdio/Digits.antt =====
-- The digit loops of vsprintf write numerals, and never run past their buffers.
use mathlib.Core.List.{append_assoc}
use native.Mathlib.Nat.{pow-suc}
use native.Mathlib.Decide.{dec_lt}
use ic_competition.Base.{
  ℕ, zero, suc, ◌/◌, ◌%◌, ◌^◌, ◌<◌, ◌≡◌, some, List, [], ◌∷◌, ◌++◌, arith, ◌==◌, true, false, pos,
  ltb_ℤ,
}
use ic_competition.Klib.Stdio.{dec_digits, hex_digits, hex_char}
use ic_competition.Klib.Stdio.Numeral.{
  numeral_upto, numeral_upto_last, numeral_upto_more, dec, decimal, numeral,
}

dec_digits_lem :
    (k n : ℕ) (buffer : List ℕ)
    → n < 10 ^ suc k
    → dec_digits (suc k) (pos n) buffer ≡ some (numeral_upto 10 dec k n ++ buffer)
unfolding dec_digits
dec_digits_lem zero n buffer h = unfold numeral_upto in ground arith
dec_digits_lem (suc k) n buffer h = elim (dec_lt n 10) [
  | yes last ↦ rw (numeral_upto_last 10 dec k n last) (ground arith)
  | no more ↦
      let big : ltb_ℤ (pos 0) (pos (n / 10)) ≡ true = ground arith in
      rw (numeral_upto_more 10 dec k n (omega arith), append_assoc)
        (rw big
          (dec_digits_lem k (n / 10) (dec (n % 10) ∷ buffer) (omega (arith, pow-suc 10 (suc k)))))
]

-- The decimal loop writes the decimal numeral of every number below 2 ^ 31.
pub dec_digits-decimal : (n : ℕ) → n < 2 ^ 31 → dec_digits 32 (pos n) [] ≡ some (decimal n ++ [])
dec_digits-decimal n h = dec_digits_lem 31 n [] (omega arith)

hex_digits_lem :
    (base k n : ℕ) (buffer : List ℕ)
    → n < 16 ^ suc k
    → hex_digits base (suc k) n buffer ≡ some (numeral_upto 16 (hex_char base) k n ++ buffer)
unfolding hex_digits
hex_digits_lem base zero n buffer h = unfold numeral_upto in ground arith
hex_digits_lem base (suc k) n buffer h = elim (dec_lt n 16) [
  | yes last ↦
      let small : (n / 16 == 0) ≡ true = ground arith in
      rw (numeral_upto_last 16 (hex_char base) k n last) (rw small)
  | no more ↦
      let big : (n / 16 == 0) ≡ false = ground arith in
      rw (numeral_upto_more 16 (hex_char base) k n (omega arith), append_assoc)
        (rw big (
          hex_digits_lem base k (n / 16) (hex_char base (n % 16) ∷ buffer)
            (omega (arith, pow-suc 16 (suc k)))))
]

-- The hexadecimal loop writes the hexadecimal numeral of every 32-bit number.
pub hex_digits-numeral :
    (base n : ℕ) → n < 2 ^ 32 → hex_digits base 32 n [] ≡ some (numeral 16 (hex_char base) n ++ [])
hex_digits-numeral base n h = hex_digits_lem base 31 n [] (omega arith)
