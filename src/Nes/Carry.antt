-- ===== src/Nes/Carry.antt =====
-- Addition of the processor, with its flags.
use ic_competition.Base.{
  ℕ, ◌+◌, ◌-◌, ◌*◌, ◌/◌, ◌%◌, ◌^◌, ◌≤◌, ◌<◌, ◌≡◌, refl, sym, ◌∙◌, Bool, true, false, not, ◌&&◌,
  ◌||◌, arith, ◌==◌, ltb, Bool-cases, inl, inr, bit_and, bit_or, bit_xor,
}
use ic_competition.Base.Table.{tabulate, tabulate_at}
use ic_competition.Nes.State.{
  Nes, common_bit_set, common_modify_bitb, common_set_bitb, common_unset_bitb,
}
use ic_competition.Nes.Flags.{flag, set_flag, carry_bp, cpu_zn_flag_table, cpu_update_zn_flags}
use ic_competition.Nes.Stack.{low_byte}
use ic_competition.Nes.Alu.{adc, nonzero, bit_of}

abbrev pub same : Bool → Bool → Bool
same true b = b
same false b = not b

abbrev pub both : (Bool → Bool) → Bool
both f = f true && f false

pub both_at : (f : Bool → Bool) (b : Bool) → both f ≡ true → f b ≡ true
both_at f true h = ground arith
both_at f false h = ground arith

-- The flag register after a carry, an overflow and the flags `z` of a result.
abbrev pub flags_of : ℕ → Bool → Bool → ℕ → ℕ
flags_of p c o z =
    bit_or (bit_and (common_modify_bitb (common_modify_bitb p 0 c) 6 o) (255 - 0x82)) z

abbrev flags_test : ℕ → Bool → Bool → ℕ → Bool
flags_test p c o z =
    let q = flags_of p c o z in
    same (common_bit_set q 0) c
    && same (common_bit_set q 6) o
    && same (common_bit_set q 1) (z == 0x02)
    && same (common_bit_set q 7) (z == 0x80)

-- For the three entries of the flag table.
abbrev flags_at : ℕ → ℕ → Bool
flags_at z p = both (λ c. both (λ o. flags_test p c o z))

flags_table_none : tabulate (flags_at 0) 256 ≡ true
unfolding tabulate common_bit_set common_modify_bitb common_set_bitb common_unset_bitb
flags_table_none = refl

flags_table_zero : tabulate (flags_at 0x02) 256 ≡ true
unfolding tabulate common_bit_set common_modify_bitb common_set_bitb common_unset_bitb
flags_table_zero = refl

flags_table_negative : tabulate (flags_at 0x80) 256 ≡ true
unfolding tabulate common_bit_set common_modify_bitb common_set_bitb common_unset_bitb
flags_table_negative = refl

pub same→≡ : (a b : Bool) → same a b ≡ true → a ≡ b
same→≡ true b h = sym h
same→≡ false b h = ground arith

pub split_and : (a b : Bool) → (a && b) ≡ true → (a ≡ true) × (b ≡ true)
split_and true b h = (refl, h)
split_and false b h = ground arith

-- What the flag register says after an addition or a subtraction with the result `r`.
pub record Said (q : ℕ) (c o : Bool) (r : ℕ) : Type 0 where
  pub carry : common_bit_set q 0 ≡ c
  pub overflow : common_bit_set q 6 ≡ o
  pub result_zero : common_bit_set q 1 ≡ (r == 0)
  pub result_negative : common_bit_set q 7 ≡ ltb 127 r

Said-flags :
    (p : ℕ) (c o : Bool) (r z : ℕ)
    → flags_test p c o z ≡ true
    → (z == 0x02) ≡ (r == 0)
    → (z == 0x80) ≡ ltb 127 r
    → Said (flags_of p c o z) c o r
Said-flags p c o r z h e e' =
    let h1 = split_and _ _ h in
    let h2 = split_and _ _ h1.0 in
    let h3 = split_and _ _ h2.0 in
    record {
      carry = same→≡ _ _ h3.0;
      overflow = same→≡ _ _ h3.1;
      result_zero = same→≡ _ _ h2.1 ∙ e;
      result_negative = same→≡ _ _ h1.1 ∙ e';
    }

flags_tested :
    (z p : ℕ) (c o : Bool) → tabulate (flags_at z) 256 ≡ true → p < 256 → flags_test p c o z ≡ true
flags_tested z p c o table h =
    both_at (λ o. flags_test p c o z) o
      (both_at (λ c. both (λ o. flags_test p c o z)) c (tabulate_at (flags_at z) p 256 h table))

-- The register after both flags and those of a result below 256.
pub Said-table :
    (p : ℕ) (c o : Bool) (r : ℕ) → p < 256 → Said (flags_of p c o (cpu_zn_flag_table r)) c o r
unfolding cpu_zn_flag_table
Said-table p c o r h = elim (Bool-cases (r == 0)) [
  | inl null ↦ rw null (
      Said-flags p c o r 0x02 (flags_tested 0x02 p c o flags_table_zero h) (sym null)
        (ground arith))
  | inr other ↦ elim (Bool-cases (ltb r 128)) [
    | inl low ↦
        rw (other, low)
          (Said-flags p c o r 0 (flags_tested 0 p c o flags_table_none h) (sym other)
            (ground arith))
    | inr high ↦
        rw (other, high)
          (Said-flags p c o r 0x80 (flags_tested 0x80 p c o flags_table_negative h) (sym other)
            (ground arith))
  ]
]

-- Whether the sum of two bytes and a carry, read as numbers from -128 to 127, leaves that range; the
-- numbers are moved up by 128 each.
abbrev pub sum_overflows : ℕ → ℕ → ℕ → Bool
sum_overflows a v c = let sum = (a + 128) % 256 + (v + 128) % 256 + c in ltb sum 128 || ltb 383 sum

abbrev adc_bit : ℕ → ℕ → ℕ → Bool
adc_bit a v c = nonzero (bit_and (bit_and (2 ^ 32 - 1 - bit_xor a v) (bit_xor a (a + v + c))) 0x80)

abbrev adc_test : ℕ → ℕ → Bool
adc_test c n = same (adc_bit (n / 256) (n % 256) c) (sum_overflows (n / 256) (n % 256) c)

adc_table_0 : tabulate (adc_test 0) 65536 ≡ true
unfolding tabulate
adc_table_0 = refl

adc_table_1 : tabulate (adc_test 1) 65536 ≡ true
unfolding tabulate
adc_table_1 = refl

carry_table : tabulate (λ n. same (nonzero (bit_and n 0x100)) (ltb 255 n)) 512 ≡ true
unfolding tabulate
carry_table = refl

pair_div : (a v : ℕ) → v < 256 → (a * 256 + v) / 256 ≡ a
pair_div a v h = omega arith

pair_mod : (a v : ℕ) → v < 256 → (a * 256 + v) % 256 ≡ v
pair_mod a v h = omega arith

-- A test of two bytes from a table of pairs.
pub tabulate_pair :
    (test : ℕ → ℕ → Bool) (a v : ℕ)
    → tabulate (λ n. test (n / 256) (n % 256)) 65536 ≡ true
    → a < 256
    → v < 256
    → test a v ≡ true
tabulate_pair test a v table ha hv =
    rw (pair_div a v hv, pair_mod a v hv) at
      (tabulate_at (λ n. test (n / 256) (n % 256)) (a * 256 + v) 65536 (omega arith) table)

carry_bit : (n : ℕ) → n < 512 → nonzero (bit_and n 0x100) ≡ ltb 255 n
carry_bit n h =
    same→≡ _ _ (tabulate_at (λ n. same (nonzero (bit_and n 0x100)) (ltb 255 n)) n 512 h carry_table)

adc_overflow :
    (a v : ℕ) (c : Bool) → a < 256 → v < 256 → adc_bit a v (bit_of c) ≡ sum_overflows a v (bit_of c)
adc_overflow a v true ha hv =
    same→≡ _ _
      (tabulate_pair (λ a v. same (adc_bit a v 1) (sum_overflows a v 1)) a v adc_table_1 ha hv)
adc_overflow a v false ha hv =
    same→≡ _ _
      (tabulate_pair (λ a v. same (adc_bit a v 0) (sum_overflows a v 0)) a v adc_table_0 ha hv)

pub bit_of_le : (c : Bool) → bit_of c ≤ 1
bit_of_le true = omega arith
bit_of_le false = omega arith

-- The accumulator holds `r`, and the flags say so, with the carry `c` and the overflow `o`.
pub record Computed (s : Nes) (r : ℕ) (c o : Bool) : Type 0 where
  pub accumulator : s.cpu.a ≡ r
  pub flags : Said s.cpu.p c o r

-- `adc` on bytes leaves the sum of the accumulator, the operand and the carry modulo 256; the carry
-- is set exactly when the sum exceeds 255, the overflow flag exactly when the sum of the signed
-- bytes leaves -128 to 127, and the zero and negative flags describe the result.
pub adc-Computed :
    (s : Nes)
    → s.cpu.a < 256
    → s.op_value < 256
    → s.cpu.p < 256
    → Computed
        (adc s)
        ((s.cpu.a + s.op_value + bit_of (flag carry_bp s)) % 256)
        (ltb 255 (s.cpu.a + s.op_value + bit_of (flag carry_bp s)))
        (sum_overflows s.cpu.a s.op_value (bit_of (flag carry_bp s)))
unfolding adc set_flag cpu_update_zn_flags
adc-Computed s ha hv hp =
    let c = bit_of (flag carry_bp s) in
    let sum = s.cpu.a + s.op_value + c in
    let le : c ≤ 1 = bit_of_le (flag carry_bp s) in
    let low : bit_and sum 0xFF ≡ sum % 256 = low_byte sum (omega arith) in
    let carries : nonzero (bit_and sum 0x100) ≡ ltb 255 sum = carry_bit sum (omega arith) in
    let overflows = adc_overflow s.cpu.a s.op_value (flag carry_bp s) ha hv in
    rw (low, carries, overflows)
      (record { accumulator = refl; flags = Said-table s.cpu.p (ltb 255 sum) _ (sum % 256) hp })
