-- ===== src/Nes/Table/Kinds.antt =====
-- The handlers and the addressing modes, by name, and a row of the instruction table.
use ic_competition.Base.{ℕ, true, false}
use ic_competition.Nes.State.{Nes}
use ic_competition.Nes.Flags.{
  set_flag, carry_bp, zero_bp, interrupt_bp, decimal_bp, overflow_bp, negative_bp,
}
use ic_competition.Nes.Alu
use ic_competition.Nes.Ops
use ic_competition.Nes.Addressing.{
  cpu_address_absolute, cpu_address_absolute_x, cpu_address_absolute_y, cpu_address_immediate,
  cpu_address_implied, cpu_address_indirect, cpu_address_indirect_x, cpu_address_indirect_y,
  cpu_address_relative, cpu_address_zero_page, cpu_address_zero_page_x, cpu_address_zero_page_y,
}

-- `op_fe` is the empty handler of an instruction for future extension.
pub data Op : Type 0 where
  op_adc op_and op_asl op_asla op_aso op_axa op_axs op_bcc op_bcs op_beq op_bit op_bmi : Op
  op_bne op_bpl op_brk op_bvc op_bvs op_clc op_cld op_cli op_clv op_cmp op_cpx op_cpy op_dcm : Op
  op_dec op_dex op_dey op_eor op_fe op_inc op_ins op_inx op_iny op_jmp op_jsr op_lax op_lda : Op
  op_ldx op_ldy op_lse op_lsr op_lsra op_nop op_ora op_pha op_php op_pla op_plp op_rla : Op
  op_rol op_rola op_ror op_rora op_rra op_rti op_rts op_sbc op_sec op_sed op_sei op_sta : Op
  op_stx op_sty op_tax op_tay op_tsx op_txa op_txs op_tya : Op

pub data Mode : Type 0 where
  absolute absolute_x absolute_y immediate implied indirect indirect_x indirect_y relative : Mode
  zero_page zero_page_x zero_page_y : Mode

unfoldable pub handle : Op → Nes → Nes
handle op_adc s = Alu.adc s
handle op_and s = Alu.and s
handle op_asl s = Alu.asl s
handle op_asla s = Alu.asla s
handle op_aso s = Ops.aso s
handle op_axa s = Ops.axa s
handle op_axs s = Ops.axs s
handle op_bcc s = Ops.branch_on carry_bp false s
handle op_bcs s = Ops.branch_on carry_bp true s
handle op_beq s = Ops.branch_on zero_bp true s
handle op_bit s = Alu.bit s
handle op_bmi s = Ops.branch_on negative_bp true s
handle op_bne s = Ops.branch_on zero_bp false s
handle op_bpl s = Ops.branch_on negative_bp false s
handle op_brk s = Ops.brk s
handle op_bvc s = Ops.branch_on overflow_bp false s
handle op_bvs s = Ops.branch_on overflow_bp true s
handle op_clc s = set_flag carry_bp false s
handle op_cld s = set_flag decimal_bp false s
handle op_cli s = set_flag interrupt_bp false s
handle op_clv s = set_flag overflow_bp false s
handle op_cmp s = Ops.cmp s
handle op_cpx s = Ops.cpx s
handle op_cpy s = Ops.cpy s
handle op_dcm s = Ops.dcm s
handle op_dec s = Ops.dec s
handle op_dex s = Ops.dex s
handle op_dey s = Ops.dey s
handle op_eor s = Alu.eor s
handle op_fe s = s
handle op_inc s = Ops.inc s
handle op_ins s = Ops.ins s
handle op_inx s = Ops.inx s
handle op_iny s = Ops.iny s
handle op_jmp s = Ops.jmp s
handle op_jsr s = Ops.jsr s
handle op_lax s = Ops.lax s
handle op_lda s = Ops.lda s
handle op_ldx s = Ops.ldx s
handle op_ldy s = Ops.ldy s
handle op_lse s = Ops.lse s
handle op_lsr s = Alu.lsr s
handle op_lsra s = Alu.lsra s
handle op_nop s = Alu.nop s
handle op_ora s = Alu.ora s
handle op_pha s = Ops.pha s
handle op_php s = Ops.php s
handle op_pla s = Ops.pla s
handle op_plp s = Ops.plp s
handle op_rla s = Ops.rla s
handle op_rol s = Alu.rol s
handle op_rola s = Alu.rola s
handle op_ror s = Alu.ror s
handle op_rora s = Alu.rora s
handle op_rra s = Ops.rra s
handle op_rti s = Ops.rti s
handle op_rts s = Ops.rts s
handle op_sbc s = Alu.sbc s
handle op_sec s = set_flag carry_bp true s
handle op_sed s = set_flag decimal_bp true s
handle op_sei s = set_flag interrupt_bp true s
handle op_sta s = Ops.sta s
handle op_stx s = Ops.stx s
handle op_sty s = Ops.sty s
handle op_tax s = Ops.tax s
handle op_tay s = Ops.tay s
handle op_tsx s = Ops.tsx s
handle op_txa s = Ops.txa s
handle op_txs s = Ops.txs s
handle op_tya s = Ops.tya s

unfoldable pub address : Mode → Nes → Nes
address absolute s = cpu_address_absolute s
address absolute_x s = cpu_address_absolute_x s
address absolute_y s = cpu_address_absolute_y s
address immediate s = cpu_address_immediate s
address implied s = cpu_address_implied s
address indirect s = cpu_address_indirect s
address indirect_x s = cpu_address_indirect_x s
address indirect_y s = cpu_address_indirect_y s
address relative s = cpu_address_relative s
address zero_page s = cpu_address_zero_page s
address zero_page_x s = cpu_address_zero_page_x s
address zero_page_y s = cpu_address_zero_page_y s

-- An op code, its cycles, its handler and its addressing mode.
pub data Row : Type 0 where
  row : ℕ → ℕ → Op → Mode → Row
