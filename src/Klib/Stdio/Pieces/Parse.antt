-- ===== src/Klib/Stdio/Pieces/Parse.antt =====
-- How vsprintf reads the flags and the width of a directive.
use ic_competition.Base.{
  ℕ, zero, suc, ◌<◌, ◌^◌, ◌≡◌, ◌≢◌, refl, ◌∙◌, Bool, true, false, List, ◌∷◌, ◌++◌, arith, ◌==◌,
}
use ic_competition.Klib.Stdio.{peek, skip_char, pad_of, directive, read_width}
use ic_competition.Klib.Stdio.Numeral.{decimal, read_width-decimal, decimal-Leads}

-- The width as it is written, nothing for 0.
abbrev pub width_text : ℕ → List ℕ → List ℕ
width_text zero rest = rest
width_text (suc w) rest = decimal (suc w) ++ rest

abbrev pub pad_text : Bool → List ℕ → List ℕ
pad_text true rest = b'0' ∷ rest
pad_text false rest = rest

abbrev pub pad_char : Bool → ℕ
pad_char true = b'0'
pad_char false = b' '

-- A conversion character is no digit and not the long flag.
pub record IsConv (c : ℕ) : Type 0 where
  pub above : b'9' < c
  pub not_long : c ≢ b'l'

-- What stands first behind the zero flag: no zero and no `l`.
peek_width :
    (w c : ℕ) (rest : List ℕ)
    → IsConv c
    → w < 2 ^ 31
    → (peek (width_text w (c ∷ rest)) ≢ b'0') × (peek (width_text w (c ∷ rest)) ≢ b'l')
peek_width zero c rest v h = (omega arith, v.not_long)
peek_width (suc w) c rest v h =
    let r = decimal-Leads (suc w) h in
    rw r.splits (omega (arith, r.positive), omega (arith, r.digit))

read_width-text :
    (w c : ℕ) (rest : List ℕ)
    → IsConv c
    → w < 2 ^ 31
    → read_width 0 (width_text w (c ∷ rest)) ≡ (w, c ∷ rest)
read_width-text zero c rest v h = unfold read_width in ground arith
read_width-text (suc w) c rest v h =
    read_width-decimal (suc w) (c ∷ rest) h ∙ (unfold read_width in ground arith)

skip_char_ne : (c : ℕ) (fmt : List ℕ) → peek fmt ≢ c → skip_char c fmt ≡ fmt
skip_char_ne c fmt ne = let e : (peek fmt == c) ≡ false = ground arith in rw e

pub directive_lem :
    (z : Bool) (w c : ℕ) (rest : List ℕ)
    → IsConv c
    → w < 2 ^ 31
    → directive (pad_text z (width_text w (c ∷ rest))) ≡ (w, c ∷ rest)
unfolding directive
directive_lem true w c rest v h =
    rw (skip_char_ne b'l' (width_text w (c ∷ rest)) (peek_width w c rest v h).1)
      (read_width-text w c rest v h)
directive_lem false w c rest v h =
    let p = peek_width w c rest v h in
    rw (skip_char_ne b'0' (width_text w (c ∷ rest)) p.0)
      (rw (skip_char_ne b'l' (width_text w (c ∷ rest)) p.1) (read_width-text w c rest v h))

pub pad_of_lem :
    (z : Bool) (w c : ℕ) (rest : List ℕ)
    → IsConv c
    → w < 2 ^ 31
    → pad_of (pad_text z (width_text w (c ∷ rest))) ≡ pad_char z
pad_of_lem true w c rest v h = refl
pad_of_lem false w c rest v h =
    let p = (peek_width w c rest v h).0 in
    let e : (peek (width_text w (c ∷ rest)) == b'0') ≡ false = ground arith in rw e
