-- ===== src/Klib/Stdio/Pieces/Render.antt =====
-- What vsprintf writes for a number: padding, and then a numeral.
use mathlib.Core.List.{append-nil}
use native.Mathlib.Decide.{dec_lt}
use ic_competition.Base.{
  ℕ, zero, suc, ◌-◌, ◌^◌, ◌<◌, ◌≡◌, ◌≢◌, refl, ap, subst, Bool, true, false, ◌&&◌, ◌==◌, get_or,
  some, List, [], ◌∷◌, ◌++◌, arith, if◌then◌else◌, ltb, length, replicate, Bool-cases, inl, inr,
  lt→ltb, pos, negsuc, signed32, word32, neg,
}
use ic_competition.Klib.Stdio.{padding, print_dec, print_hex, hex_char}
use ic_competition.Klib.Stdio.Numeral.{decimal, numeral, numeral_upto-digits}
use ic_competition.Klib.Stdio.Digits.{dec_digits-decimal, hex_digits-numeral}

-- `ds`, moved to the right end of a field of `width` characters.
abbrev pub aligned : ℕ → ℕ → List ℕ → List ℕ
aligned pad width ds = replicate (width - length ds) pad ++ ds

-- The sign stands in front of the field.
abbrev pub dec_text : ℕ → ℕ → ℕ → List ℕ
dec_text pad width n =
    if ltb n (2 ^ 31)
    then aligned pad width (decimal n)
    else b'-' ∷ aligned pad width (decimal (2 ^ 32 - n))

pub padding-replicate : (pad len width : ℕ) → padding pad len width ≡ replicate (width - len) pad
unfolding padding
padding-replicate pad len zero = let e : 0 - len ≡ 0 = omega arith in rw e
padding-replicate pad len (suc width) = elim (Bool-cases (ltb len (suc width))) [
  | inl more ↦
      let e : suc width - len ≡ suc (width - len) = ground arith in
      rw (more, e) (ap (◌∷◌ pad) (padding-replicate pad len width))
  | inr full ↦ let e : suc width - len ≡ 0 = ground arith in rw (full, e)
]

-- The hexadecimal digits.
abbrev pub lower_digits : List ℕ
lower_digits =
    b'0' ∷ b'1' ∷ b'2' ∷ b'3' ∷ b'4' ∷ b'5' ∷ b'6' ∷ b'7' ∷ b'8' ∷ b'9' ∷ b'a' ∷ b'b' ∷ b'c' ∷ b'd'
    ∷ b'e' ∷ b'f' ∷ []

abbrev pub upper_digits : List ℕ
upper_digits =
    b'0' ∷ b'1' ∷ b'2' ∷ b'3' ∷ b'4' ∷ b'5' ∷ b'6' ∷ b'7' ∷ b'8' ∷ b'9' ∷ b'A' ∷ b'B' ∷ b'C' ∷ b'D'
    ∷ b'E' ∷ b'F' ∷ []

abbrev pub digit : List ℕ → ℕ → ℕ
digit digits d = get_or digits d 0

all_match : ℕ → (ℕ → ℕ) → (ℕ → ℕ) → Bool
all_match zero f g = true
all_match (suc k) f g = f k == g k && all_match k f g

all_match-below : (k d : ℕ) (f g : ℕ → ℕ) → all_match k f g ≡ true → d < k → f d ≡ g d
unfolding all_match
all_match-below zero d f g e lt = absurd (omega arith)
all_match-below (suc k) d f g e lt = elim (Bool-cases (d == k)) [
  | inl same ↦ let here : k ≡ d = ground arith in subst (λ j. f j ≡ g j) here (ground arith)
  | inr ne ↦ all_match-below k d f g (ground arith) (ground arith)
]

pub hex_char-lower : (d : ℕ) → d < 16 → hex_char b'a' d ≡ digit lower_digits d
hex_char-lower d lt =
    all_match-below 16 d (hex_char b'a') (digit lower_digits) (unfold all_match in refl) lt

pub hex_char-upper : (d : ℕ) → d < 16 → hex_char b'A' d ≡ digit upper_digits d
hex_char-upper d lt =
    all_match-below 16 d (hex_char b'A') (digit upper_digits) (unfold all_match in refl) lt

pub print_hex_lem :
    (base pad width n : ℕ) (digits : List ℕ)
    → ((d : ℕ) → d < 16 → hex_char base d ≡ digit digits d)
    → n < 2 ^ 32
    → print_hex base pad width n ≡ some (aligned pad width (numeral 16 (digit digits) n))
unfolding print_hex
print_hex_lem base pad width n digits same h =
    rw (hex_digits-numeral base n h, append-nil, padding-replicate)
      (ap (λ ds. some (aligned pad width ds)) (numeral_upto-digits 31 n same))

-- The pattern of a negative `int` other than the least, negated as the code does it.
negated :
    (n : ℕ)
    → 2 ^ 31 < n
    → n < 2 ^ 32
    → signed32 (word32 (neg (negsuc (2 ^ 32 - n - 1)))) ≡ pos (2 ^ 32 - n)
negated n lo hi = ground arith

pub print_dec_lem :
    (pad width n : ℕ)
    → n < 2 ^ 32
    → n ≢ 2 ^ 31
    → print_dec pad width n ≡ some (dec_text pad width n)
unfolding print_dec
print_dec_lem pad width n h ne = elim (dec_lt n (2 ^ 31)) [
  | yes small ↦
      rw (lt→ltb n (2 ^ 31) small) (rw (dec_digits-decimal n small, append-nil, padding-replicate))
  | no big ↦
      let high : ltb n (2 ^ 31) ≡ false = ground arith in
      let fits : 2 ^ 32 - n < 2 ^ 31 = omega arith in
      rw high (
        rw (
          negated n (omega arith) h,
          dec_digits-decimal (2 ^ 32 - n) fits,
          append-nil,
          padding-replicate,
        ))
]
