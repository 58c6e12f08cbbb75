-- ===== src/Klib/Stdlib.antt =====
-- rand, srand, abs, atoi and malloc of abstract-machine/klib/src/stdlib.c on a 32-bit machine. The
-- static variables `next` and `addr` are explicit arguments and results.
pub mod Random
pub mod Atoi
pub mod Malloc
use ic_competition.Base.{
  ℕ, zero, suc, ◌+◌, ◌-◌, ◌*◌, ◌/◌, ◌%◌, ◌^◌, Bool, true, false, ◌&&◌, Option, none, some, ◌==◌,
  ltb, leb, if◌then◌else◌,
}
use ic_competition.Klib.Memory.{Mem}

-- the new `next`, and the result
unfoldable pub rand : ℕ → ℕ × ℕ
rand next = let next' = (next * 1103515245 + 12345) % 2 ^ 32 in (next', (next' / 65536) % 32768)

unfoldable pub srand : ℕ → ℕ
srand seed = seed

-- `int` as its bit pattern; the negation of the least `int` wraps to itself.
unfoldable pub abs : ℕ → ℕ
abs x = if ltb x (2 ^ 31) then x else (2 ^ 32 - x) % 2 ^ 32

-- `while (*nptr == ' ') { nptr ++; }`
unfoldable pub atoi_spaces : Mem → ℕ → ℕ → Option ℕ
atoi_spaces m zero nptr = none
atoi_spaces m (suc k) nptr =
    let rest = atoi_spaces m k (nptr + 1) in if m nptr == b' ' then rest else some nptr

abbrev pub is_digit : ℕ → Bool
is_digit c = leb b'0' c && leb c b'9'

-- `x = x * 10 + *nptr - '0'`, wrapped to 32 bits
unfoldable pub atoi_digits : Mem → ℕ → ℕ → ℕ → Option ℕ
atoi_digits m zero nptr x = none
atoi_digits m (suc k) nptr x =
    let rest = atoi_digits m k (nptr + 1) ((x * 10 + m nptr - b'0') % 2 ^ 32) in
    if is_digit (m nptr) then rest else some x

unfoldable pub atoi : ℕ → Mem → ℕ → Option ℕ
atoi fuel m nptr = elim (atoi_spaces m fuel nptr) [ none ↦ none | some p ↦ atoi_digits m fuel p 0 ]

-- `ROUNDUP(size, 8)` of a 32-bit `size_t`: `(size + 7) & ~7`
abbrev round_up : ℕ → ℕ
round_up size = ((size + 7) % 2 ^ 32) / 8 * 8

-- The new `addr`, and the pointer or `none` for NULL; `stop` is `heap.end`. The sum wraps.
unfoldable pub malloc : ℕ → ℕ → ℕ → ℕ × Option ℕ
malloc stop addr size =
    if ltb stop ((addr + round_up size) % 2 ^ 32)
    then (addr, none)
    else ((addr + round_up size) % 2 ^ 32, some addr)

-- `free` is empty.
unfoldable pub free : ℕ → ℕ → ℕ
free addr ptr = addr
