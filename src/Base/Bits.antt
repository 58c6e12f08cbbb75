-- ===== src/Base/Bits.antt =====
-- The laws of the bitwise operations at variables, from the lowest digit on.
use Prim.Native.Nat.{
  ℕ, zero, suc, ◌+◌, ◌*◌, ◌/◌, ◌%◌, ◌≤◌, ◌<◌, min, differ, digits, bit_and, bit_xor,
  bit_and-bitwise, bit_xor-bitwise,
}
use mathlib.Core.Path.{◌≡◌, refl, sym, ap, ◌∙◌}
use native.Mathlib.Omega.{arith}

module _ (z : ℕ → ℕ) (f : ℕ → ℕ → ℕ) where
  -- Fuel above the first number changes nothing.
  digits_enough : (n m a b : ℕ) → a ≤ n → a ≤ m → digits z f n a b ≡ digits z f m a b
  digits_enough zero zero a b h g = refl
  digits_enough (suc n) zero zero b h g = refl
  digits_enough zero (suc m) zero b h g = refl
  digits_enough (suc n) (suc m) zero b h g = refl
  digits_enough (suc n) zero (suc a) b h g = absurd (omega arith)
  digits_enough zero (suc m) (suc a) b h g = absurd (omega arith)
  digits_enough (suc n) (suc m) (suc a) b h g =
      ap (λ x. x * 2 + f (suc a % 2) (b % 2))
        (digits_enough n m (suc a / 2) (b / 2) (omega arith) (omega arith))

  digits_lowest :
      (a b : ℕ)
      → digits z f (suc a) (suc a) b
        ≡ digits z f (suc a / 2) (suc a / 2) (b / 2) * 2 + f (suc a % 2) (b % 2)
  digits_lowest a b =
      ap (λ x. x * 2 + f (suc a % 2) (b % 2))
        (digits_enough a (suc a / 2) (suc a / 2) (b / 2) (omega arith) (omega arith))

-- Exclusive or of two binary digits.
abbrev pub digit_xor : ℕ → ℕ → ℕ
digit_xor i j = (i + j) % 2

differ_digits : (i j : ℕ) → i < 2 → j < 2 → differ i j ≡ digit_xor i j
differ_digits zero j h g = omega arith
differ_digits (suc zero) zero h g = omega arith
differ_digits (suc zero) (suc zero) h g = omega arith
differ_digits (suc zero) (suc (suc j)) h g = absurd (omega arith)
differ_digits (suc (suc i)) j h g = absurd (omega arith)

pub xor_lowest : (a b : ℕ) → bit_xor a b ≡ bit_xor (a / 2) (b / 2) * 2 + digit_xor (a % 2) (b % 2)
xor_lowest zero b = omega (arith, bit_xor-bitwise 0 b, bit_xor-bitwise 0 (b / 2))
xor_lowest (suc a) b = omega (
  arith,
  bit_xor-bitwise (suc a) b,
  bit_xor-bitwise (suc a / 2) (b / 2),
  digits_lowest (λ b. b) differ a b,
  differ_digits (suc a % 2) (b % 2) (omega arith) (omega arith),
)

pub xor_half : (a b : ℕ) → bit_xor a b / 2 ≡ bit_xor (a / 2) (b / 2)
xor_half a b = omega (arith, xor_lowest a b)

pub xor_digit : (a b : ℕ) → bit_xor a b % 2 ≡ digit_xor (a % 2) (b % 2)
xor_digit a b = omega (arith, xor_lowest a b)

pub xor_zero : (b : ℕ) → bit_xor 0 b ≡ b
xor_zero b = bit_xor-bitwise 0 b

xor_comm_within : (n a b : ℕ) → a ≤ n → b ≤ n → bit_xor a b ≡ bit_xor b a
xor_comm_within zero a b h g =
    let p : a ≡ b = omega arith in ap (λ x. bit_xor a x) (sym p) ∙ ap (λ x. bit_xor x a) p
xor_comm_within (suc n) a b h g = omega (
  arith,
  xor_lowest a b,
  xor_lowest b a,
  xor_comm_within n (a / 2) (b / 2) (omega arith) (omega arith),
)

pub xor_comm : (a b : ℕ) → bit_xor a b ≡ bit_xor b a
xor_comm a b = xor_comm_within (a + b) a b (omega arith) (omega arith)

xor_assoc_within :
    (n a b c : ℕ) → a ≤ n → b ≤ n → c ≤ n → bit_xor (bit_xor a b) c ≡ bit_xor a (bit_xor b c)
xor_assoc_within zero a b c h g k =
    let p : 0 ≡ a = omega arith in
    ap (λ x. bit_xor (bit_xor x b) c) (sym p)
    ∙ ap (λ x. bit_xor x c) (xor_zero b)
    ∙ sym (xor_zero (bit_xor b c))
    ∙ ap (λ x. bit_xor x (bit_xor b c)) p
xor_assoc_within (suc n) a b c h g k = omega (
  arith,
  xor_lowest (bit_xor a b) c,
  xor_lowest a (bit_xor b c),
  xor_digit a b,
  xor_digit b c,
  ap (λ x. bit_xor x (c / 2)) (xor_half a b),
  ap (λ x. bit_xor (a / 2) x) (xor_half b c),
  xor_assoc_within n (a / 2) (b / 2) (c / 2) (omega arith) (omega arith) (omega arith),
)

pub xor_assoc : (a b c : ℕ) → bit_xor (bit_xor a b) c ≡ bit_xor a (bit_xor b c)
xor_assoc a b c = xor_assoc_within (a + b + c) a b c (omega arith) (omega arith) (omega arith)

pub and_lowest : (a b : ℕ) → bit_and a b ≡ bit_and (a / 2) (b / 2) * 2 + min (a % 2) (b % 2)
and_lowest zero b = omega (arith, bit_and-bitwise 0 b, bit_and-bitwise 0 (b / 2))
and_lowest (suc a) b = omega (
  arith,
  bit_and-bitwise (suc a) b,
  bit_and-bitwise (suc a / 2) (b / 2),
  digits_lowest (λ b. 0) min a b,
)

and_zero_within : (n a : ℕ) → a ≤ n → bit_and a 0 ≡ 0
and_zero_within zero a h =
    let p : 0 ≡ a = omega arith in ap (λ x. bit_and x 0) (sym p) ∙ bit_and-bitwise 0 0
and_zero_within (suc n) a h = omega (arith, and_lowest a 0, and_zero_within n (a / 2) (omega arith))

pub and_one : (a : ℕ) → bit_and a 1 ≡ a % 2
and_one a = omega (arith, and_lowest a 1, and_zero_within (a / 2) (a / 2) (omega arith))

and_nibble : (a : ℕ) → bit_and a 0xF ≡ a % 16
and_nibble a = omega (
  arith,
  and_lowest a 0xF,
  and_lowest (a / 2) 7,
  and_lowest (a / 2 / 2) 3,
  and_one (a / 2 / 2 / 2),
)

pub and_byte : (a : ℕ) → bit_and a 0xFF ≡ a % 256
and_byte a = omega (
  arith,
  and_lowest a 0xFF,
  and_lowest (a / 2) 0x7F,
  and_lowest (a / 2 / 2) 0x3F,
  and_lowest (a / 2 / 2 / 2) 0x1F,
  and_nibble (a / 2 / 2 / 2 / 2),
)
