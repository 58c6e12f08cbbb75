-- ===== src/Programs/Crc.antt =====
-- rc_crc32 of crc32.c: the checksum by a table. The static variables are a record.
pub mod Shift
pub mod Table
use ic_competition.Base.{
  ℕ, zero, suc, ◌+◌, ◌-◌, ◌/◌, ◌^◌, Bool, true, List, [], ◌∷◌, ◌==◌, if◌then◌else◌, bit_and,
  bit_xor,
}

pub record Statics : Type 0 where
  pub table : ℕ → ℕ
  pub have_table : Bool

-- One round of the inner loop, on the remainder.
abbrev pub shift_rem : ℕ → ℕ
shift_rem rem = if bit_and rem 1 == 0 then rem / 2 else bit_xor (rem / 2) 0xedb88320

-- `for (j = 0; j < 8; j++)`, with the rounds left first
unfoldable pub table_entry : ℕ → ℕ → ℕ
table_entry zero rem = rem
table_entry (suc r) rem = table_entry r (shift_rem rem)

abbrev pub set_entry : (ℕ → ℕ) → ℕ → ℕ → ℕ → ℕ
set_entry table i rem j = if j == i then rem else table j

-- `for (i = 0; i < 256; i++)`
unfoldable pub make_table : ℕ → ℕ → (ℕ → ℕ) → ℕ → ℕ
make_table zero i table = table
make_table (suc r) i table = make_table r (i + 1) (set_entry table i (table_entry 8 i))

abbrev pub with_table : Statics → Statics
with_table s =
    if s.have_table then s else (record { table = make_table 256 0 s.table; have_table = true })

unfoldable pub crc_loop : (ℕ → ℕ) → ℕ → List ℕ → ℕ
crc_loop table crc [] = crc
crc_loop table crc (octet ∷ buf) =
    crc_loop table (bit_xor (crc / 256) (table (bit_xor (bit_and crc 0xff) octet))) buf

-- The complement of 32 bits.
abbrev pub complement : ℕ → ℕ
complement x = 2 ^ 32 - 1 - x

abbrev pub rc_crc32 : Statics → ℕ → List ℕ → ℕ × Statics
rc_crc32 s crc buf =
    let s1 = with_table s in (complement (crc_loop s1.table (complement crc) buf), s1)
