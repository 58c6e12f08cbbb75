-- ===== src/Klib/Stdio.antt =====
-- vsprintf and sprintf of abstract-machine/klib/src/stdio.c, on a 32-bit machine, where `long` is as
-- wide as `int`. The format and the output are lists of characters; a `va_list` is a list of
-- arguments. A digit buffer is a stack, its last character written first.
pub mod Numeral
pub mod Digits
pub mod Pieces
pub mod Signs
use ic_competition.Base.{
  ℕ, zero, suc, ◌+◌, ◌-◌, ◌*◌, ◌/◌, ◌%◌, Bool, true, false, ◌&&◌, ◌||◌, Option, none, some, List,
  [], ◌∷◌, ◌++◌, ◌==◌, ltb, leb, if◌then◌else◌, length, ℤ, pos, negsuc, neg, ltb_ℤ, signed32,
  word32,
}

-- An argument in a `va_list`: the bit pattern of an `int`, or the characters of a `char *`.
pub data Arg : Type 0 where
  int : ℕ → Arg
  string : List ℕ → Arg

-- `panicked` is the default case of the switch, `bad_args` an argument that is missing or of the
-- wrong type, `overrun` a write past a digit buffer, and `out_of_fuel` bounds the loop.
pub data Printed : Type 0 where
  done : List ℕ → Printed
  panicked bad_args overrun out_of_fuel : Printed

-- `'0' + (value % 10)`; C's remainder takes the sign of `value`.
abbrev dec_char : ℤ → ℕ
dec_char (pos n) = b'0' + n % 10
dec_char (negsuc n) = b'0' - (suc n) % 10

-- `value / 10`, rounded towards zero
abbrev div_ten : ℤ → ℤ
div_ten (pos n) = pos (n / 10)
div_ten (negsuc n) = neg (pos (suc n / 10))

-- `do { … } while (value > 0);` with room for `k` more characters in `buffer`
unfoldable pub dec_digits : ℕ → ℤ → List ℕ → Option (List ℕ)
dec_digits zero value buffer = none
dec_digits (suc k) value buffer =
    let rest = dec_digits k (div_ten value) (dec_char value ∷ buffer) in
    if ltb_ℤ (pos 0) (div_ten value) then rest else some (dec_char value ∷ buffer)

abbrev pub hex_char : ℕ → ℕ → ℕ
hex_char base d = if ltb d 10 then b'0' + d else base + d - 10

unfoldable pub hex_digits : ℕ → ℕ → ℕ → List ℕ → Option (List ℕ)
hex_digits base zero valuex bufferx = none
hex_digits base (suc k) valuex bufferx =
    let rest = hex_digits base k (valuex / 16) (hex_char base (valuex % 16) ∷ bufferx) in
    if valuex / 16 == 0 then some (hex_char base (valuex % 16) ∷ bufferx) else rest

-- `while (len < width) { *out++ = pad; width--; }`
unfoldable pub padding : ℕ → ℕ → ℕ → List ℕ
padding pad len zero = []
padding pad len (suc width) = if ltb len (suc width) then pad ∷ padding pad len width else []

-- What follows the sign: the padding and the digits, or `none` past the 32 characters of a buffer.
abbrev padded : ℕ → ℕ → Option (List ℕ) → Option (List ℕ)
padded pad width none = none
padded pad width (some ds) = some (padding pad (length ds) width ++ ds)

abbrev is_negative : ℤ → Bool
is_negative (pos n) = false
is_negative (negsuc n) = true

-- `case 'd'`
unfoldable pub print_dec : ℕ → ℕ → ℕ → Option (List ℕ)
print_dec pad width arg =
    let value = signed32 arg in
    if is_negative value
    then (elim (padded pad width (dec_digits 32 (signed32 (word32 (neg value))) [])) [
      | none ↦ none
      | some s ↦ some (b'-' ∷ s)
    ])
    else padded pad width (dec_digits 32 value [])

-- `case 'x': case 'X'`
unfoldable pub print_hex : ℕ → ℕ → ℕ → ℕ → Option (List ℕ)
print_hex base pad width arg = padded pad width (hex_digits base 32 arg [])

-- One conversion: its output and the arguments left, handed to the rest of the loop.
abbrev emit : Option (List ℕ) → (List ℕ → Printed) → Printed
emit none next = overrun
emit (some s) next = next s

-- `while (*str) { *out++ = *str++; }`: the characters in front of the first NUL.
unfoldable pub until_nul : List ℕ → List ℕ
until_nul [] = []
until_nul (c ∷ cs) = let rest = until_nul cs in if c == 0 then [] else c ∷ rest

unfoldable pub convert : ℕ → ℕ → ℕ → List Arg → (List ℕ → List Arg → Printed) → Printed
convert c pad width (int w ∷ ap) next =
    if c == b'c'
    then next (w % 256 ∷ []) ap
    else if c == b'd'
    then emit (print_dec pad width w) (λ s. next s ap)
    else if c == b'x'
    then emit (print_hex b'a' pad width w) (λ s. next s ap)
    else if c == b'X'
    then emit (print_hex b'A' pad width w) (λ s. next s ap)
    else if c == b'%'
    then next (b'%' ∷ []) (int w ∷ ap)
    else if c == b's'
    then bad_args
    else panicked
convert c pad width (string cs ∷ ap) next =
    if c == b's'
    then next (until_nul cs) ap
    else if c == b'%'
    then next (b'%' ∷ []) (string cs ∷ ap)
    else if c == b'c' || c == b'd' || c == b'x' || c == b'X'
    then bad_args
    else panicked
convert c pad width [] next =
    if c == b'%'
    then next (b'%' ∷ []) []
    else if c == b'c' || c == b'd' || c == b'x' || c == b'X' || c == b's'
    then bad_args
    else panicked

-- The current character, with the NUL behind the format.
abbrev peek : List ℕ → ℕ
peek [] = 0
peek (c ∷ cs) = c

abbrev skip : List ℕ → List ℕ
skip [] = []
skip (c ∷ cs) = cs

-- `while (*fmt >= '0' && *fmt <= '9') …`: the width, and the format behind it
unfoldable pub read_width : ℕ → List ℕ → ℕ × List ℕ
read_width width [] = (width, [])
read_width width (c ∷ cs) =
    let rest = read_width (width * 10 + (c - b'0')) cs in
    if leb b'0' c && leb c b'9' then rest else (width, c ∷ cs)

abbrev skip_char : ℕ → List ℕ → List ℕ
skip_char c fmt = if peek fmt == c then skip fmt else fmt

abbrev pad_of : List ℕ → ℕ
pad_of fmt = if peek fmt == b'0' then b'0' else b' '

-- The flags and the width behind a `%`. The long flag chooses between two types of one width.
unfoldable pub directive : List ℕ → ℕ × List ℕ
directive fmt = read_width 0 (skip_char b'l' (skip_char b'0' fmt))

-- `while (*fmt) { … }`, with what has been written so far
unfoldable pub vsprintf_loop : ℕ → List ℕ → List ℕ → List Arg → Printed
vsprintf_loop zero out fmt ap = out_of_fuel
vsprintf_loop (suc k) out [] ap = done out
vsprintf_loop (suc k) out (c ∷ fmt) ap =
    let at_percent =
      convert (peek (directive fmt).1) (pad_of fmt) (directive fmt).0 ap
        (λ s ap'. vsprintf_loop k (out ++ s) (skip (directive fmt).1) ap') in
    let plain = vsprintf_loop k (out ++ c ∷ []) fmt ap in
    if c == 0 then done out else if c == b'%' then at_percent else plain

-- `sprintf` hands its arguments on; the result is `out - start`, the length of the output.
unfoldable pub sprintf : List ℕ → List Arg → Printed
sprintf fmt ap = vsprintf_loop (length fmt + 1) [] fmt ap
