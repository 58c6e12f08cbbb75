-- ===== src/Nes/Ops.antt =====
-- The instructions of cpu.c, cpu_op_lda to cpu_op_rra, without their prefix.
use ic_competition.Base.{ℕ, ◌+◌, ◌-◌, ◌/◌, ◌%◌, ◌^◌, Bool, not, if◌then◌else◌, bit_and, bit_or}
use ic_competition.Nes.State.{Nes}
use ic_competition.Nes.Flags.{
  flag, cpu_update_zn_flags, set_a, set_x, set_sp, set_pc, set_p, cpu_branch, cpu_compare,
  cpu_stack_pushb, cpu_stack_pushw, cpu_stack_popb, cpu_stack_popw, cpu_nmi_interrupt_address,
}
use ic_competition.Nes.Alu.{
  load_a, load_x, load_y, write_back, set_value, adc, sbc, and, eor, ora, asl, lsr, rol, ror,
}

unfoldable pub lda : Nes → Nes
lda s = load_a (s.op_value % 256) s

unfoldable pub ldx : Nes → Nes
ldx s = load_x (s.op_value % 256) s

unfoldable pub ldy : Nes → Nes
ldy s = load_y (s.op_value % 256) s

unfoldable pub sta : Nes → Nes
sta s = write_back s.cpu.a s

unfoldable pub stx : Nes → Nes
stx s = write_back s.cpu.x s

unfoldable pub sty : Nes → Nes
sty s = write_back s.cpu.y s

unfoldable pub tax : Nes → Nes
tax s = load_x s.cpu.a s

unfoldable pub txa : Nes → Nes
txa s = load_a s.cpu.x s

unfoldable pub tay : Nes → Nes
tay s = load_y s.cpu.a s

unfoldable pub tya : Nes → Nes
tya s = load_a s.cpu.y s

unfoldable pub tsx : Nes → Nes
tsx s = load_x s.cpu.sp s

unfoldable pub txs : Nes → Nes
txs s = set_sp s.cpu.x s

-- bcs, beq, bmi and bvs, and bcc, bne, bpl and bvc
unfoldable pub branch_on : ℕ → Bool → Nes → Nes
branch_on position value s = cpu_branch (if value then flag position s else not (flag position s)) s

unfoldable pub jmp : Nes → Nes
jmp s = set_pc s.op_address s

unfoldable pub jsr : Nes → Nes
jsr s = let s1 = cpu_stack_pushw ((s.cpu.pc + 65535) % 2 ^ 16) s in set_pc s1.op_address s1

unfoldable pub rts : Nes → Nes
rts s = let (w, s1) = cpu_stack_popw s in set_pc (w + 1) s1

-- The vector is that of the NMI.
unfoldable pub brk : Nes → Nes
brk s =
    let s1 = cpu_stack_pushw ((s.cpu.pc + 65535) % 2 ^ 16) s in
    let s2 = cpu_stack_pushb s1.cpu.p s1 in
    let (w, s3) = cpu_nmi_interrupt_address (set_p (bit_or s2.cpu.p 0x30) s2) in set_pc w s3

unfoldable pub rti : Nes → Nes
rti s =
    let (p, s1) = cpu_stack_popb s in
    let (w, s2) = cpu_stack_popw (set_p (bit_or p 0x20) s1) in set_pc w s2

unfoldable pub cmp : Nes → Nes
cmp s = cpu_compare s.cpu.a s

unfoldable pub cpx : Nes → Nes
cpx s = cpu_compare s.cpu.x s

unfoldable pub cpy : Nes → Nes
cpy s = cpu_compare s.cpu.y s

unfoldable pub inc : Nes → Nes
inc s = let v = (s.op_value + 1) % 256 in cpu_update_zn_flags v (write_back v s)

unfoldable pub inx : Nes → Nes
inx s = load_x ((s.cpu.x + 1) % 256) s

unfoldable pub iny : Nes → Nes
iny s = load_y ((s.cpu.y + 1) % 256) s

unfoldable pub dec : Nes → Nes
dec s = let v = (s.op_value + 2 ^ 32 - 1) % 256 in cpu_update_zn_flags v (write_back v s)

unfoldable pub dex : Nes → Nes
dex s = load_x ((s.cpu.x + 255) % 256) s

unfoldable pub dey : Nes → Nes
dey s = load_y ((s.cpu.y + 255) % 256) s

unfoldable pub php : Nes → Nes
php s = cpu_stack_pushb (bit_or s.cpu.p 0x30) s

unfoldable pub pha : Nes → Nes
pha s = cpu_stack_pushb s.cpu.a s

unfoldable pub pla : Nes → Nes
pla s = let (v, s1) = cpu_stack_popb s in load_a v s1

unfoldable pub plp : Nes → Nes
plp s = let (v, s1) = cpu_stack_popb s in set_p (bit_or (bit_and v 0xEF) 0x20) s1

unfoldable pub aso : Nes → Nes
aso s = ora (asl s)

unfoldable pub axa : Nes → Nes
axa s = write_back (bit_and (bit_and s.cpu.a s.cpu.x) (s.op_address / 256)) s

unfoldable pub axs : Nes → Nes
axs s = write_back (bit_and s.cpu.a s.cpu.x) s

unfoldable pub dcm : Nes → Nes
dcm s =
    let v = bit_and ((s.op_value + 2 ^ 32 - 1) % 2 ^ 32) 0xFF in cmp (write_back v (set_value v s))

unfoldable pub ins : Nes → Nes
ins s = let v = bit_and (s.op_value + 1) 0xFF in sbc (write_back v (set_value v s))

unfoldable pub lax : Nes → Nes
lax s = let v = s.op_value % 256 in cpu_update_zn_flags v (set_a v (set_x v s))

unfoldable pub lse : Nes → Nes
lse s = eor (lsr s)

unfoldable pub rla : Nes → Nes
rla s = and (rol s)

unfoldable pub rra : Nes → Nes
rra s = adc (ror s)
