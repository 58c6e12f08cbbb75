-- ===== src/Programs/Crc/Table.antt =====
-- The table of rc_crc32, and the whole call against the shift register.
use ic_competition.Base.{
  ℕ, zero, suc, ◌+◌, ◌/◌, ◌<◌, ◌≡◌, refl, ap, ◌∙◌, true, List, [], ◌∷◌, ◌==◌, arith, inl, inr,
  Bool-cases, bit_xor,
}
use ic_competition.Programs.Crc.{
  Statics, table_entry, set_entry, make_table, with_table, crc_loop, complement, rc_crc32,
}
use ic_competition.Programs.Crc.Shift.{
  take_bits, take_bytes, place, place-bound, take_bits-table_entry,
}

unfoldable pub IsTable : (ℕ → ℕ) → ℕ → Type 0
IsTable table n = (i : ℕ) → i < n → table i ≡ table_entry 8 i

-- The table is right once it is there.
abbrev pub AreStatics : Statics → Type 0
AreStatics s = s.have_table ≡ true → IsTable s.table 256

make_table-IsTable :
    (r i n : ℕ) (table : ℕ → ℕ) → n ≡ i + r → IsTable table i → IsTable (make_table r i table) n
unfolding make_table IsTable
make_table-IsTable zero i n table e done = λ j lt. done j (omega arith)
make_table-IsTable (suc r) i n table e done =
    make_table-IsTable r (i + 1) n (set_entry table i (table_entry 8 i)) (omega arith) (λ j lt.
      elim (Bool-cases (j == i)) [
        | inl here ↦ let same : i ≡ j = ground arith in rw here (ap (table_entry 8) same)
        | inr ne ↦ rw ne (done j (ground arith))
      ])

with_table-IsTable : (s : Statics) → AreStatics s → IsTable (with_table s).table 256
unfolding IsTable
with_table-IsTable s a = elim (Bool-cases s.have_table) [
  | inl e ↦ rw e (a e)
  | inr ne ↦ rw ne (make_table-IsTable 256 0 256 s.table refl (λ i lt. absurd (omega arith)))
]

unfoldable pub AreBytes : List ℕ → Type 0
AreBytes [] = Unit
AreBytes (octet ∷ buf) = (octet < 256) × AreBytes buf

crc_loop-take_bytes :
    (table : ℕ → ℕ) (crc : ℕ) (buf : List ℕ)
    → IsTable table 256
    → AreBytes buf
    → crc_loop table crc buf ≡ take_bytes crc buf
unfolding crc_loop take_bytes IsTable AreBytes
crc_loop-take_bytes table crc [] t b = refl
crc_loop-take_bytes table crc (octet ∷ buf) t b =
    let entry = t (place crc octet) (place-bound crc octet b.0) in
    let step : bit_xor (crc / 256) (table (place crc octet)) ≡ take_bits 8 crc octet =
      ap (λ v. bit_xor (crc / 256) v) entry ∙ take_bits-table_entry crc octet b.0 in
    rw step (crc_loop-take_bytes table (take_bits 8 crc octet) buf t b.1)

-- The call computed the checksum bit by bit, and left a table that is right.
pub record IsChecksum (crc : ℕ) (buf : List ℕ) (result : ℕ × Statics) : Type 0 where
  pub by_bits : result.0 ≡ complement (take_bytes (complement crc) buf)
  pub built : result.1.have_table ≡ true
  pub table : IsTable result.1.table 256

-- Where a table that is marked as made is right: on all bytes and from every start value, rc_crc32
-- returns the checksum that the shift register gives bit by bit, and afterwards its table is made and
-- right.
pub rc_crc32-IsChecksum :
    (s : Statics) (crc : ℕ) (buf : List ℕ)
    → AreStatics s
    → AreBytes buf
    → IsChecksum crc buf (rc_crc32 s crc buf)
rc_crc32-IsChecksum s crc buf a b =
    let t = with_table-IsTable s a in
    record {
      by_bits = ap complement (crc_loop-take_bytes (with_table s).table (complement crc) buf t b);
      built = elim (Bool-cases s.have_table) [ inl e ↦ rw e refl | inr ne ↦ rw ne refl ];
      table = t;
    }
