-- ===== src/Klib/Stdio/Numeral.antt =====
-- Numerals in a base, most significant digit first: what the digit loops of vsprintf should write.
use mathlib.Core.List.{append_assoc}
use native.Mathlib.Nat.{pow-suc}
use native.Mathlib.Decide.{dec_lt}
use ic_competition.Base.{
  ℕ, zero, suc, ◌+◌, ◌*◌, ◌/◌, ◌%◌, ◌^◌, ◌≤◌, ◌<◌, ◌≡◌, refl, ap, ◌∙◌, false, List, [], ◌∷◌, ◌++◌,
  arith, ltb, if◌then◌else◌, lt→ltb,
}
use ic_competition.Klib.Stdio.{read_width}

-- The recursion is on a bound of the number of digits.
unfoldable pub numeral_upto : ℕ → (ℕ → ℕ) → ℕ → ℕ → List ℕ
numeral_upto base ch zero n = ch (n % base) ∷ []
numeral_upto base ch (suc k) n =
    let rest = numeral_upto base ch k (n / base) ++ ch (n % base) ∷ [] in
    if ltb n base then ch (n % base) ∷ [] else rest

-- Every `int` has at most 32 digits.
abbrev pub numeral : ℕ → (ℕ → ℕ) → ℕ → List ℕ
numeral base ch n = numeral_upto base ch 31 n

abbrev pub dec : ℕ → ℕ
dec d = b'0' + d

abbrev pub decimal : ℕ → List ℕ
decimal n = numeral 10 dec n

read_width_digit :
    (w d : ℕ) (rest : List ℕ) → d < 10 → read_width w (dec d ∷ rest) ≡ read_width (w * 10 + d) rest
unfolding read_width
read_width_digit w d rest h = ground arith

-- The hexadecimal numeral depends on the 16 digits only.
pub numeral_upto-digits :
    {f g : ℕ → ℕ} (k n : ℕ)
    → ((d : ℕ) → d < 16 → f d ≡ g d)
    → numeral_upto 16 f k n ≡ numeral_upto 16 g k n
unfolding numeral_upto
numeral_upto-digits zero n same = ap (λ c. c ∷ []) (same (n % 16) (omega arith))
numeral_upto-digits (suc k) n same =
    rw (same (n % 16) (omega arith), numeral_upto-digits k (n / 16) same) refl

module _ (base : ℕ) (ch : ℕ → ℕ) (k n : ℕ) where
  pub numeral_upto_last : n < base → numeral_upto base ch (suc k) n ≡ ch (n % base) ∷ []
  unfolding numeral_upto
  numeral_upto_last h = rw (lt→ltb n base h)

  pub numeral_upto_more :
      base ≤ n
      → numeral_upto base ch (suc k) n ≡ numeral_upto base ch k (n / base) ++ ch (n % base) ∷ []
  unfolding numeral_upto
  numeral_upto_more h = let e : ltb n base ≡ false = ground arith in rw e

-- The width loop of vsprintf reads a decimal numeral back, and goes on behind it.
read_width-upto :
    (k n : ℕ) (rest : List ℕ)
    → n < 10 ^ suc k
    → read_width 0 (numeral_upto 10 dec k n ++ rest) ≡ read_width n rest
read_width-upto zero n rest h =
    unfold numeral_upto in
    read_width_digit 0 (n % 10) rest (omega arith) ∙ ap (λ w. read_width w rest) (omega arith)
read_width-upto (suc k) n rest h = elim (dec_lt n 10) [
  | yes last ↦
      rw (numeral_upto_last 10 dec k n last)
        (read_width_digit 0 (n % 10) rest (omega arith) ∙ ap (λ w. read_width w rest) (omega arith))
  | no more ↦
      rw (numeral_upto_more 10 dec k n (omega arith), append_assoc)
        (read_width-upto k (n / 10) (dec (n % 10) ∷ rest) (omega (arith, pow-suc 10 (suc k)))
          ∙ read_width_digit (n / 10) (n % 10) rest (omega arith)
          ∙ ap (λ w. read_width w rest) (omega arith))
]

pub read_width-decimal :
    (n : ℕ) (rest : List ℕ) → n < 2 ^ 31 → read_width 0 (decimal n ++ rest) ≡ read_width n rest
read_width-decimal n rest h = read_width-upto 31 n rest (omega arith)

-- A decimal numeral starts with a digit, and that digit is no zero unless the number is.
pub record Leads (n : ℕ) (ds : List ℕ) : Type 0 where
  pub first : ℕ
  pub others : List ℕ
  pub splits : ds ≡ dec first ∷ others
  pub digit : first < 10
  pub positive : 0 < n → 0 < first

numeral_upto-Leads : (k n : ℕ) → n < 10 ^ suc k → Leads n (numeral_upto 10 dec k n)
numeral_upto-Leads zero n h = record {
  first = n;
  others = [];
  splits = unfold numeral_upto in ap (λ d. dec d ∷ []) (omega arith);
  digit = omega arith;
  positive = λ p. p;
}
numeral_upto-Leads (suc k) n h = elim (dec_lt n 10) [
  | yes last ↦ record {
    first = n;
    others = [];
    splits = numeral_upto_last 10 dec k n last ∙ ap (λ d. dec d ∷ []) (omega arith);
    digit = last;
    positive = λ p. p;
  }
  | no more ↦
      let r = numeral_upto-Leads k (n / 10) (omega (arith, pow-suc 10 (suc k))) in
      record {
        first = r.first;
        others = r.others ++ dec (n % 10) ∷ [];
        splits = numeral_upto_more 10 dec k n (omega arith) ∙ rw r.splits;
        digit = r.digit;
        positive = λ p. r.positive (omega arith);
      }
]

pub decimal-Leads : (n : ℕ) → n < 2 ^ 31 → Leads n (decimal n)
decimal-Leads n h = numeral_upto-Leads 31 n (omega arith)
