-- ===== src/Nes/Borrow.antt =====
-- Subtraction of the processor, with its flags.
use ic_competition.Base.{
  ℕ, ◌+◌, ◌-◌, ◌/◌, ◌%◌, ◌^◌, ◌<◌, ◌≡◌, refl, Bool, true, false, not, ◌&&◌, ◌||◌, arith, ◌==◌, ltb,
  bit_and, bit_xor,
}
use ic_competition.Base.Table.{tabulate}
use ic_competition.Nes.State.{Nes}
use ic_competition.Nes.Flags.{flag, set_flag, carry_bp, cpu_update_zn_flags}
use ic_competition.Nes.Alu.{sbc, nonzero, bit_of}
use ic_competition.Nes.Carry.{same, same→≡, split_and, Said-table, tabulate_pair, Computed}

-- `int result = cpu.A - op_value - borrow`
abbrev difference : ℕ → ℕ → ℕ → ℕ
difference a v b = (a + 2 ^ 32 - v - b) % 2 ^ 32

-- Whether the difference of two bytes less a borrow, read as numbers from -128 to 127, leaves that
-- range; the numbers are moved up by 128 each.
abbrev pub difference_overflows : ℕ → ℕ → ℕ → Bool
difference_overflows a v b =
    let left = (a + 128) % 256 in
    let right = (v + 128) % 256 + b in ltb (left + 128) right || ltb (right + 127) left

abbrev sbc_bit : ℕ → ℕ → ℕ → Bool
sbc_bit a v b = nonzero (bit_and (bit_and (bit_xor a v) (bit_xor a (difference a v b))) 0x80)

abbrev sbc_test : ℕ → ℕ → ℕ → Bool
sbc_test b a v =
    same (sbc_bit a v b) (difference_overflows a v b)
    && same (nonzero (bit_and (difference a v b) 0x100)) (ltb a (v + b))
    && bit_and (difference a v b) 0xFF == (a + 256 - v - b) % 256

sbc_table_0 : tabulate (λ n. sbc_test 0 (n / 256) (n % 256)) 65536 ≡ true
unfolding tabulate
sbc_table_0 = refl

sbc_table_1 : tabulate (λ n. sbc_test 1 (n / 256) (n % 256)) 65536 ≡ true
unfolding tabulate
sbc_table_1 = refl

-- What the tables say of two bytes.
record Subtracted (a v b : ℕ) : Type 0 where
  overflow : sbc_bit a v b ≡ difference_overflows a v b
  borrow : nonzero (bit_and (difference a v b) 0x100) ≡ ltb a (v + b)
  low : bit_and (difference a v b) 0xFF ≡ (a + 256 - v - b) % 256

Subtracted-test : (a v b : ℕ) → sbc_test b a v ≡ true → Subtracted a v b
Subtracted-test a v b h =
    let h1 = split_and _ _ h in
    let h2 = split_and _ _ h1.0 in
    record { overflow = same→≡ _ _ h2.0; borrow = same→≡ _ _ h2.1; low = ground (arith, h1.1) }

Subtracted-bytes : (a v : ℕ) (b : Bool) → a < 256 → v < 256 → Subtracted a v (bit_of b)
Subtracted-bytes a v true ha hv =
    Subtracted-test a v 1 (tabulate_pair (sbc_test 1) a v sbc_table_1 ha hv)
Subtracted-bytes a v false ha hv =
    Subtracted-test a v 0 (tabulate_pair (sbc_test 0) a v sbc_table_0 ha hv)

-- `sbc` on bytes leaves the accumulator less the operand and less one more where the carry is clear,
-- modulo 256; the carry is clear afterwards exactly when there was a borrow, the overflow flag set
-- exactly when the difference of the signed bytes leaves -128 to 127, and the zero and negative flags
-- describe the result.
pub sbc-Computed :
    (s : Nes)
    → s.cpu.a < 256
    → s.op_value < 256
    → s.cpu.p < 256
    → Computed
        (sbc s)
        ((s.cpu.a + 256 - s.op_value - bit_of (not (flag carry_bp s))) % 256)
        (not (ltb s.cpu.a (s.op_value + bit_of (not (flag carry_bp s)))))
        (difference_overflows s.cpu.a s.op_value (bit_of (not (flag carry_bp s))))
unfolding sbc set_flag cpu_update_zn_flags
sbc-Computed s ha hv hp =
    let c = not (flag carry_bp s) in
    let t = Subtracted-bytes s.cpu.a s.op_value c ha hv in
    rw (t.low, t.borrow, t.overflow)
      (record { accumulator = refl; flags = Said-table s.cpu.p _ _ _ hp })
