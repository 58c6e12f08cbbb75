-- ===== src/Tests/Strings.antt =====
-- Runs of string.c, stdio.c and stdlib.c on concrete memories and arguments.
use ic_competition.Base.{
  ℕ, ◌+◌, ◌-◌, ◌≡◌, refl, true, false, some, List, [], ◌∷◌, arith, if◌then◌else◌, get_or, ℤ,
}
use ic_competition.Klib.Memory.{Mem, IsStr, nul, char}
use ic_competition.Klib.Str.{strcmp}
use ic_competition.Klib.Str.Compare.{Orders, strcmp-Orders}
use ic_competition.Klib.Str.{memmove}
use ic_competition.Klib.Str.Move.{memmove_lem, within}
use ic_competition.Klib.Stdio.{
  int, done, sprintf, print_dec, vsprintf_loop, convert, directive, read_width, dec_digits, padding,
}
use ic_competition.Klib.Stdio.Pieces.{Piece, lit, str, dec, hex}
use ic_competition.Klib.Stdlib.{atoi}
use ic_competition.Klib.Stdlib.Atoi.{atoi-sprintf}
use ic_competition.Klib.Stdlib.Malloc.{allocate, Blocks, allocate-Blocks}

-- "ab" at 0, "abc" at 3 and "42" behind a space at 7.
abbrev memory : Mem
memory a = get_or (97 ∷ 98 ∷ 0 ∷ 97 ∷ 98 ∷ 99 ∷ 0 ∷ 32 ∷ 52 ∷ 50 ∷ 0 ∷ []) a 0

abbrev ab : List ℕ
ab = 97 ∷ 98 ∷ []

abbrev abc : List ℕ
abc = 97 ∷ 98 ∷ 99 ∷ []

at_0 : IsStr memory 0 ab
at_0 = char refl (omega arith) (char refl (omega arith) (nul refl))

at_3 : IsStr memory 3 abc
at_3 = char refl (omega arith) (char refl (omega arith) (char refl (omega arith) (nul refl)))

at_7 : IsStr memory 7 (32 ∷ 52 ∷ 50 ∷ [])
at_7 = char refl (omega arith) (char refl (omega arith) (char refl (omega arith) (nul refl)))

strcmp-Orders_example : (r : ℤ) × (strcmp 9 memory 0 3 ≡ some r) × Orders ab abc r
strcmp-Orders_example = strcmp-Orders 9 at_0 at_3 (omega arith)

memmove_example : memmove memory 1 0 3 2 ≡ (if within 1 3 2 then memory (0 + (2 - 1)) else memory 2)
memmove_example = memmove_lem memory 1 0 3 2

-- "n=%05d, %s%x"
abbrev pieces : List Piece
pieces = lit b'n' ∷ lit b'=' ∷ dec true 5 42 ∷ lit b',' ∷ str ab ∷ hex false 0 255 ∷ []

prints_42 : sprintf (b'%' ∷ b'd' ∷ []) (int 42 ∷ []) ≡ done (52 ∷ 50 ∷ [])
unfolding sprintf vsprintf_loop convert directive read_width print_dec dec_digits padding
prints_42 = refl

atoi-sprintf_example : atoi 9 memory 7 ≡ some 42
atoi-sprintf_example = atoi-sprintf 9 1 42 (omega arith) prints_42 at_7 (omega arith) (omega arith)

allocate-Blocks_example : Blocks 16 64 (allocate 64 16 (5 ∷ 40 ∷ 100 ∷ 3 ∷ []))
allocate-Blocks_example =
    allocate-Blocks 64 16 (5 ∷ 40 ∷ 100 ∷ 3 ∷ []) (omega arith) refl
      (omega arith, (omega arith, (omega arith, (omega arith, tt))))
