-- ===== src/Klib/Stdio/Pieces.antt =====
-- sprintf against a specification: a format is a sequence of pieces, and the output is the
-- concatenation of what each piece stands for.
mod Parse
pub mod Render
use mathlib.Core.List.{append-nil, append_assoc}
use ic_competition.Base.{
  ℕ, zero, suc, ◌+◌, ◌-◌, ◌%◌, ◌^◌, ◌≤◌, ◌<◌, ◌≡◌, ◌≢◌, refl, ap, ◌∙◌, Bool, true, false, some,
  List, [], ◌∷◌, ◌++◌, arith, if◌then◌else◌, ltb, length, length-append, replicate, ◌==◌,
}
use ic_competition.Klib.Stdio.{
  Arg, int, string, Printed, done, until_nul, vsprintf_loop, sprintf, convert, directive,
  read_width,
}
use ic_competition.Klib.Stdio.Numeral.{decimal, numeral}
use Parse.{width_text, pad_text, pad_char, IsConv, directive_lem, pad_of_lem}
use Render.{
  aligned, dec_text, digit, lower_digits, upper_digits, hex_char-lower, hex_char-upper,
  print_dec_lem, print_hex_lem,
}

pub data Piece : Type 0 where
  lit : ℕ → Piece
  percent : Piece
  chr : ℕ → Piece
  str : List ℕ → Piece
  -- the zero flag, the width (0 for none) and the argument
  dec hex hex_upper : Bool → ℕ → ℕ → Piece

abbrev directive_text : Bool → ℕ → ℕ → List ℕ → List ℕ
directive_text z w c rest = b'%' ∷ pad_text z (width_text w (c ∷ rest))

abbrev tail_args : List Arg → List Arg
tail_args [] = []
tail_args (a ∷ ap) = ap

-- The text of a piece in the format, in front of what follows.
abbrev pub piece_text : Piece → List ℕ → List ℕ
piece_text (lit c) rest = c ∷ rest
piece_text percent rest = b'%' ∷ b'%' ∷ rest
piece_text (chr w) rest = b'%' ∷ b'c' ∷ rest
piece_text (str cs) rest = b'%' ∷ b's' ∷ rest
piece_text (dec z w n) rest = directive_text z w b'd' rest
piece_text (hex z w n) rest = directive_text z w b'x' rest
piece_text (hex_upper z w n) rest = directive_text z w b'X' rest

abbrev pub piece_args : Piece → List Arg → List Arg
piece_args (lit c) rest = rest
piece_args percent rest = rest
piece_args (chr w) rest = int w ∷ rest
piece_args (str cs) rest = string cs ∷ rest
piece_args (dec z w n) rest = int n ∷ rest
piece_args (hex z w n) rest = int n ∷ rest
piece_args (hex_upper z w n) rest = int n ∷ rest

abbrev pub render : Piece → List ℕ
render (lit c) = c ∷ []
render percent = b'%' ∷ []
render (chr w) = w % 256 ∷ []
render (str cs) = cs
render (dec z w n) = dec_text (pad_char z) w n
render (hex z w n) = aligned (pad_char z) w (numeral 16 (digit lower_digits) n)
render (hex_upper z w n) = aligned (pad_char z) w (numeral 16 (digit upper_digits) n)

-- No NUL ends the string before its last character.
abbrev pub HasNoNul : List ℕ → Type 0
HasNoNul [] = Unit {0}
HasNoNul (c ∷ cs) = (c ≢ 0) × HasNoNul cs

until_nul_lem : (cs : List ℕ) → HasNoNul cs → until_nul cs ≡ cs
unfolding until_nul
until_nul_lem [] h = refl
until_nul_lem (c ∷ cs) h =
    let ne = h.0 in
    let plain : (c == 0) ≡ false = ground arith in rw plain (ap (◌∷◌ c) (until_nul_lem cs h.1))

-- A literal is no `%` and no NUL, and a string has no NUL; a width and an argument are numbers of
-- their types, and the argument of a decimal conversion is not the least `int`, whose negation
-- overflows.
abbrev pub Fits : Piece → Type 0
Fits (lit c) = (c ≢ b'%') × (c ≢ 0)
Fits percent = Unit {0}
Fits (chr w) = Unit {0}
Fits (str cs) = HasNoNul cs
Fits (dec z w n) = (w < 2 ^ 31) × (n < 2 ^ 32) × (n ≢ 2 ^ 31)
Fits (hex z w n) = (w < 2 ^ 31) × (n < 2 ^ 32)
Fits (hex_upper z w n) = (w < 2 ^ 31) × (n < 2 ^ 32)

abbrev pub format : List Piece → List ℕ
format [] = []
format (p ∷ ps) = piece_text p (format ps)

abbrev pub arguments : List Piece → List Arg
arguments [] = []
arguments (p ∷ ps) = piece_args p (arguments ps)

abbrev pub output : List Piece → List ℕ
output [] = []
output (p ∷ ps) = render p ++ output ps

abbrev pub AllFit : List Piece → Type 0
AllFit [] = Unit {0}
AllFit (p ∷ ps) = Fits p × AllFit ps

emit_directive :
    (z : Bool) (w c : ℕ) (k : ℕ) (out rest : List ℕ) (ap : List Arg) {s : List ℕ}
    → IsConv c
    → w < 2 ^ 31
    → ((next : List ℕ → List Arg → Printed)
        → convert c (pad_char z) w ap next ≡ next s (tail_args ap))
    → vsprintf_loop (suc k) out (directive_text z w c rest) ap
      ≡ vsprintf_loop k (out ++ s) rest (tail_args ap)
unfolding vsprintf_loop
emit_directive z w c k out rest ap v h run =
    rw (directive_lem z w c rest v h, pad_of_lem z w c rest v h) (run _)

convert-percent :
    (ap : List Arg) (next : List ℕ → List Arg → Printed)
    → convert b'%' b' ' 0 ap next ≡ next (b'%' ∷ []) ap
unfolding convert
convert-percent [] next = refl
convert-percent (int w ∷ ap) next = refl
convert-percent (string cs ∷ ap) next = refl

-- One round of the loop reads one piece of the format and writes what it stands for.
vsprintf_loop-render :
    (p : Piece) (k : ℕ) (out rest : List ℕ) (ap : List Arg)
    → Fits p
    → vsprintf_loop (suc k) out (piece_text p rest) (piece_args p ap)
      ≡ vsprintf_loop k (out ++ render p) rest ap
vsprintf_loop-render (lit c) k out rest ap h =
    let plain : (c == b'%') ≡ false = let ne = h.0 in ground arith in
    let inside : (c == 0) ≡ false = let ne = h.1 in ground arith in
    unfold vsprintf_loop in rw (inside, plain) refl
vsprintf_loop-render percent k out rest ap h =
    unfold vsprintf_loop directive read_width in convert-percent ap _
vsprintf_loop-render (chr w) k out rest ap h =
    unfold vsprintf_loop directive read_width convert in refl
vsprintf_loop-render (str cs) k out rest ap h =
    unfold vsprintf_loop directive read_width convert in rw (until_nul_lem cs h) refl
vsprintf_loop-render (dec z w n) k out rest ap h =
    emit_directive z w b'd' k out rest (int n ∷ ap) (omega arith) h.0
      (λ next. unfold convert in rw (print_dec_lem (pad_char z) w n h.1 h.2))
vsprintf_loop-render (hex z w n) k out rest ap h =
    emit_directive z w b'x' k out rest (int n ∷ ap) (omega arith) h.0 (λ next.
      unfold convert in rw (print_hex_lem b'a' (pad_char z) w n lower_digits hex_char-lower h.1))
vsprintf_loop-render (hex_upper z w n) k out rest ap h =
    emit_directive z w b'X' k out rest (int n ∷ ap) (omega arith) h.0 (λ next.
      unfold convert in rw (print_hex_lem b'A' (pad_char z) w n upper_digits hex_char-upper h.1))

vsprintf_loop-output :
    (ps : List Piece) (k : ℕ) (out : List ℕ)
    → AllFit ps
    → length ps < k
    → vsprintf_loop k out (format ps) (arguments ps) ≡ done (out ++ output ps)
vsprintf_loop-output ps zero out h fuel = absurd (omega arith)
vsprintf_loop-output [] (suc k) out h fuel = unfold vsprintf_loop in rw append-nil
vsprintf_loop-output (p ∷ ps) (suc k) out h fuel =
    vsprintf_loop-render p k out (format ps) (arguments ps) h.0
    ∙ vsprintf_loop-output ps k (out ++ render p) h.1 (omega arith)
    ∙ ap done (append_assoc out (render p) (output ps))

length-width_text : (w : ℕ) (rest : List ℕ) → length rest ≤ length (width_text w rest)
length-width_text zero rest = omega arith
length-width_text (suc w) rest = omega (arith, length-append (decimal (suc w)) rest)

length-directive_text :
    (z : Bool) (w c : ℕ) (rest : List ℕ) → length rest < length (directive_text z w c rest)
length-directive_text true w c rest = omega (arith, length-width_text w (c ∷ rest))
length-directive_text false w c rest = omega (arith, length-width_text w (c ∷ rest))

length-piece_text : (p : Piece) (rest : List ℕ) → length rest < length (piece_text p rest)
length-piece_text (lit c) rest = omega arith
length-piece_text percent rest = omega arith
length-piece_text (chr w) rest = omega arith
length-piece_text (str cs) rest = omega arith
length-piece_text (dec z w n) rest = length-directive_text z w b'd' rest
length-piece_text (hex z w n) rest = length-directive_text z w b'x' rest
length-piece_text (hex_upper z w n) rest = length-directive_text z w b'X' rest

length-format : (ps : List Piece) → length ps ≤ length (format ps)
length-format [] = omega arith
length-format (p ∷ ps) = omega (arith, length-piece_text p (format ps), length-format ps)

pub sprintf-output :
    (ps : List Piece) → AllFit ps → sprintf (format ps) (arguments ps) ≡ done (output ps)
unfolding sprintf
sprintf-output ps h =
    vsprintf_loop-output ps (length (format ps) + 1) [] h (omega (arith, length-format ps))
