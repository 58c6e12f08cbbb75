-- ===== src/Klib/Str/Move.antt =====
-- What memset, memmove and memcpy leave at every address.
use ic_competition.Base.{
  ℕ, zero, suc, ◌+◌, ◌-◌, ◌%◌, ◌≤◌, ◌≡◌, ◌⊎◌, Bool, ◌&&◌, arith, ltb, leb, if◌then◌else◌,
}
use ic_competition.Klib.Memory.{Mem, write}
use ic_competition.Klib.Str.{copy_up, copy_down, memset, memmove, memcpy}

-- `a` is one of the `n` addresses from `d` on.
abbrev pub within : ℕ → ℕ → ℕ → Bool
within d n a = leb d a && ltb a (d + n)

-- `memset` stores the low byte of `c` at each of the `n` addresses from `s` on, and nothing else.
pub memset_lem :
    (m : Mem) (s c n a : ℕ) → memset m s c n a ≡ (if within s n a then c % 256 else m a)
unfolding memset
memset_lem m s c zero a = ground arith
memset_lem m s c (suc n) a = ground (arith, memset_lem (write m s (c % 256)) (s + 1) c n a)

-- An ascending copy reads each source byte before it is overwritten, if the destination starts
-- below the source or behind its end.
copy_up_lem :
    (k i : ℕ) (m : Mem) (d s a : ℕ)
    → (d ≤ s) ⊎ (s + i + k ≤ d + i)
    → copy_up k i m d s a ≡ (if within (d + i) k a then m (s + (a - d)) else m a)
unfolding copy_up
copy_up_lem zero i m d s a h = ground arith
copy_up_lem (suc k) i m d s a h =
    ground (arith, copy_up_lem k (i + 1) (write m (d + i) (m (s + i))) d s a)

copy_down_lem :
    (n : ℕ) (m : Mem) (d s a : ℕ)
    → s ≤ d
    → copy_down n m d s a ≡ (if within d n a then m (s + (a - d)) else m a)
unfolding copy_down
copy_down_lem zero m d s a h = ground arith
copy_down_lem (suc n) m d s a h =
    ground (arith, copy_down_lem n (write m (d + n) (m (s + n))) d s a)

-- After `memmove` the `n` bytes from `dst` on are those that stood from `src` on before the call,
-- and every other address is unchanged, however the two ranges overlap.
pub memmove_lem :
    (m : Mem) (dst src n a : ℕ)
    → memmove m dst src n a ≡ (if within dst n a then m (src + (a - dst)) else m a)
unfolding memmove
memmove_lem m dst src n a = ground (arith, copy_up_lem n 0 m dst src a, copy_down_lem n m dst src a)

-- Where the destination starts at or below the source, or not before its end, after `memcpy` the `n`
-- bytes from `out` on are those that stood from `src` on before the call, and every other address is
-- unchanged.
pub memcpy_lem :
    (m : Mem) (out src n a : ℕ)
    → (out ≤ src) ⊎ (src + n ≤ out)
    → memcpy m out src n a ≡ (if within out n a then m (src + (a - out)) else m a)
unfolding memcpy
memcpy_lem m out src n a h = ground (arith, copy_up_lem n 0 m out src a)
