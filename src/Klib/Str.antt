-- ===== src/Klib/Str.antt =====
-- The functions of abstract-machine/klib/src/string.c. A loop that ends at a NUL runs on fuel, and
-- `none` means that the fuel ran out; a loop over `n` bytes recurs on the rounds left. A returned
-- pointer is always the first argument, so a function that writes returns the new memory.
pub mod Compare
pub mod Copy
pub mod Move
use ic_competition.Base.{
  ℕ, zero, suc, ◌+◌, ◌%◌, ◌^◌, Bool, true, false, not, ◌&&◌, Option, none, some, ◌==◌, ltb,
  if◌then◌else◌, ℤ, pos, sub_ℕ,
}
use ic_competition.Klib.Memory.{Mem, write}

-- `while (*s++) len++;`, with a 32-bit `size_t`
strlen_loop : Mem → ℕ → ℕ → ℕ → Option ℕ
strlen_loop m zero s len = none
strlen_loop m (suc k) s len =
    let rest = strlen_loop m k (s + 1) ((len + 1) % 2 ^ 32) in if m s == 0 then some len else rest

unfoldable pub strlen : ℕ → Mem → ℕ → Option ℕ
unfolding strlen_loop
strlen fuel m s = strlen_loop m fuel s 0

strcpy_loop : ℕ → Mem → ℕ → ℕ → Option Mem
strcpy_loop zero m dest src = none
strcpy_loop (suc k) m dest src =
    let next = write m dest (m src) in
    let rest = strcpy_loop k next (dest + 1) (src + 1) in if m src == 0 then some next else rest

unfoldable pub strcpy : ℕ → Mem → ℕ → ℕ → Option Mem
unfolding strcpy_loop
strcpy fuel m dst src = strcpy_loop fuel m dst src

-- `while (*dest) dest++;`
strcat_walk : Mem → ℕ → ℕ → Option ℕ
strcat_walk m zero dest = none
strcat_walk m (suc k) dest =
    let rest = strcat_walk m k (dest + 1) in if m dest == 0 then some dest else rest

unfoldable pub strcat : ℕ → Mem → ℕ → ℕ → Option Mem
unfolding strcat_walk strcpy_loop
strcat fuel m dst src = elim (strcat_walk m fuel dst) [
  | none ↦ none
  | some dest ↦ strcpy_loop fuel m dest src
]

-- The difference of two `unsigned char`, as an `int`.
abbrev byte_diff : ℕ → ℕ → ℤ
byte_diff a b = sub_ℕ a b

unfoldable pub strcmp : ℕ → Mem → ℕ → ℕ → Option ℤ
strcmp zero m s1 s2 = none
strcmp (suc k) m s1 s2 =
    let rest = strcmp k m (s1 + 1) (s2 + 1) in
    if not (m s1 == 0) && (m s1 == m s2) then rest else some (byte_diff (m s1) (m s2))

-- The count `n` is what is left of `while (n--)`; with none left the result is 0.
unfoldable pub strncmp : Mem → ℕ → ℕ → ℕ → ℤ
strncmp m s1 s2 zero = pos 0
strncmp m s1 s2 (suc n) =
    let rest = strncmp m (s1 + 1) (s2 + 1) n in
    if not (m s1 == m s2) then byte_diff (m s1) (m s2) else if m s1 == 0 then pos 0 else rest

-- `c` is the bit pattern of the `int`; the cast to `unsigned char` keeps its low byte.
unfoldable pub memset : Mem → ℕ → ℕ → ℕ → Mem
memset m s c zero = m
memset m s c (suc n) = memset (write m s (c % 256)) (s + 1) c n

-- `for (i = 0; i < n; i++) d[i] = s[i];` with the rounds left first
copy_up : ℕ → ℕ → Mem → ℕ → ℕ → Mem
copy_up zero i m d s = m
copy_up (suc k) i m d s = copy_up k (i + 1) (write m (d + i) (m (s + i))) d s

-- `for (i = n; i > 0; i--) d[i-1] = s[i-1];`
copy_down : ℕ → Mem → ℕ → ℕ → Mem
copy_down zero m d s = m
copy_down (suc i) m d s = copy_down i (write m (d + i) (m (s + i))) d s

unfoldable pub memmove : Mem → ℕ → ℕ → ℕ → Mem
unfolding copy_up copy_down
memmove m dst src n =
    if dst == src
    then m
    else if n == 0
    then m
    else if ltb dst src
    then copy_up n 0 m dst src
    else copy_down n m dst src

unfoldable pub memcpy : Mem → ℕ → ℕ → ℕ → Mem
unfolding copy_up
memcpy m out src n = copy_up n 0 m out src

unfoldable pub memcmp : Mem → ℕ → ℕ → ℕ → ℤ
memcmp m s1 s2 zero = pos 0
memcmp m s1 s2 (suc n) =
    let rest = memcmp m (s1 + 1) (s2 + 1) n in
    if not (m s1 == m s2) then byte_diff (m s1) (m s2) else rest
