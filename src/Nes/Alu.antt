-- ===== src/Nes/Alu.antt =====
-- The arithmetic and shift instructions of cpu.c, cpu_op_adc to cpu_op_ror, without their prefix.
use ic_competition.Base.{
  ℕ, ◌+◌, ◌-◌, ◌*◌, ◌/◌, ◌%◌, ◌^◌, Bool, not, ◌==◌, ltb, if◌then◌else◌, bit_and, bit_or, bit_xor,
}
use ic_competition.Nes.State.{Nes}
use ic_competition.Nes.Memory.{memory_writeb}
use ic_competition.Nes.Flags.{
  carry_bp, zero_bp, overflow_bp, negative_bp, flag, set_flag, cpu_update_zn_flags, set_a, set_x,
  set_y, set_p,
}

-- `!!x`
abbrev pub nonzero : ℕ → Bool
nonzero n = not (n == 0)

abbrev pub bit_of : Bool → ℕ
bit_of b = if b then 1 else 0

-- `memory_writeb(op_address, v)`
abbrev pub write_back : ℕ → Nes → Nes
write_back v s = memory_writeb (s.op_address % 2 ^ 16) v s

abbrev pub set_value : ℕ → Nes → Nes
set_value v s = record s { op_value = v }

-- The assignment to a register and the flags of the assigned byte.
abbrev pub load_a : ℕ → Nes → Nes
load_a v s = cpu_update_zn_flags v (set_a v s)

abbrev pub load_x : ℕ → Nes → Nes
load_x v s = cpu_update_zn_flags v (set_x v s)

abbrev pub load_y : ℕ → Nes → Nes
load_y v s = cpu_update_zn_flags v (set_y v s)

unfoldable pub nop : Nes → Nes
nop s = s

unfoldable pub adc : Nes → Nes
adc s =
    let result = s.cpu.a + s.op_value + bit_of (flag carry_bp s) in
    let differ = bit_and (2 ^ 32 - 1 - bit_xor s.cpu.a s.op_value) (bit_xor s.cpu.a result) in
    load_a (bit_and result 0xFF) (
      set_flag overflow_bp (nonzero (bit_and differ 0x80))
        (set_flag carry_bp (nonzero (bit_and result 0x100)) s))

unfoldable pub sbc : Nes → Nes
sbc s =
    let result = (s.cpu.a + 2 ^ 32 - s.op_value - bit_of (not (flag carry_bp s))) % 2 ^ 32 in
    let differ = bit_and (bit_xor s.cpu.a s.op_value) (bit_xor s.cpu.a result) in
    load_a (bit_and result 0xFF) (
      set_flag overflow_bp (nonzero (bit_and differ 0x80))
        (set_flag carry_bp (not (nonzero (bit_and result 0x100))) s))

unfoldable pub and : Nes → Nes
and s = load_a (bit_and s.cpu.a s.op_value % 256) s

unfoldable pub bit : Nes → Nes
bit s =
    let s1 = set_flag zero_bp (bit_and s.cpu.a s.op_value == 0) s in
    set_p (bit_or (bit_and s1.cpu.p 0x3F) (bit_and 0xC0 s.op_value)) s1

unfoldable pub eor : Nes → Nes
eor s = load_a (bit_xor s.cpu.a s.op_value % 256) s

unfoldable pub ora : Nes → Nes
ora s = load_a (bit_or s.cpu.a s.op_value % 256) s

unfoldable pub asla : Nes → Nes
asla s = load_a ((s.cpu.a * 2) % 256) (set_flag carry_bp (nonzero (bit_and s.cpu.a 0x80)) s)

unfoldable pub asl : Nes → Nes
asl s =
    let v = bit_and (s.op_value * 2) 0xFF in
    write_back v (
      cpu_update_zn_flags v (set_value v (set_flag carry_bp (nonzero (bit_and s.op_value 0x80)) s)))

unfoldable pub lsra : Nes → Nes
lsra s =
    let v = s.cpu.a / 2 in
    load_a (bit_and v 0xFF) (set_flag carry_bp (nonzero (bit_and s.cpu.a 1)) s)

unfoldable pub lsr : Nes → Nes
lsr s =
    let v = bit_and (s.op_value / 2) 0xFF in
    cpu_update_zn_flags v
      (write_back v (set_value v (set_flag carry_bp (nonzero (bit_and s.op_value 1)) s)))

unfoldable pub rola : Nes → Nes
rola s =
    let v = bit_or (s.cpu.a * 2) (bit_of (flag carry_bp s)) in
    load_a (bit_and v 0xFF) (set_flag carry_bp (ltb 0xFF v) s)

unfoldable pub rol : Nes → Nes
rol s =
    let w = bit_or (s.op_value * 2) (bit_of (flag carry_bp s)) in
    let v = bit_and w 0xFF in
    cpu_update_zn_flags v (write_back v (set_value v (set_flag carry_bp (ltb 0xFF w) s)))

-- The flags of `rora` and `ror`: the result is zero or not, and the old carry is its bit 7.
abbrev pub rotated : ℕ → Bool → Nes → Nes
rotated v carry s = set_flag negative_bp carry (set_flag zero_bp (v == 0) s)

unfoldable pub rora : Nes → Nes
rora s =
    let carry = flag carry_bp s in
    let v = bit_or (s.cpu.a / 2) (bit_of carry * 128) in
    rotated v carry (set_a v (set_flag carry_bp (nonzero (bit_and s.cpu.a 1)) s))

unfoldable pub ror : Nes → Nes
ror s =
    let carry = flag carry_bp s in
    let v = bit_and (bit_or (s.op_value / 2) (bit_of carry * 128)) 0xFF in
    write_back v
      (rotated v carry (set_value v (set_flag carry_bp (nonzero (bit_and s.op_value 1)) s)))
