-- ===== src/Nes/Table/BaseSet.antt =====
-- The base instruction set, in the order of cpu_init() of cpu.c.
use ic_competition.Base.{List, [], ◌∷◌}
use ic_competition.Nes.Table.Kinds.{
  Row, row, op_adc, op_and, op_asl, op_asla, op_bcc, op_bcs, op_beq, op_bit, op_bmi, op_bne, op_bpl,
  op_brk, op_bvc, op_bvs, op_clc, op_cld, op_cli, op_clv, op_cmp, op_cpx, op_cpy, op_dec, op_dex,
  op_dey, op_eor, op_inc, op_inx, op_iny, op_jmp, op_jsr, op_lda, op_ldx, op_ldy, op_lsr, op_lsra,
  op_nop, op_ora, op_pha, op_php, op_pla, op_plp, op_rol, op_rola, op_ror, op_rora, op_rti, op_rts,
  op_sbc, op_sec, op_sed, op_sei, op_sta, op_stx, op_sty, op_tax, op_tay, op_tsx, op_txa, op_txs,
  op_tya, absolute, absolute_x, absolute_y, immediate, implied, indirect, indirect_x, indirect_y,
  relative, zero_page, zero_page_x, zero_page_y,
}

abbrev pub low_rows : List Row
low_rows =
    row 0x00 7 op_brk implied
    ∷ row 0x01 6 op_ora indirect_x
    ∷ row 0x05 3 op_ora zero_page
    ∷ row 0x06 5 op_asl zero_page
    ∷ row 0x08 3 op_php implied
    ∷ row 0x09 2 op_ora immediate
    ∷ row 0x0A 2 op_asla implied
    ∷ row 0x0D 4 op_ora absolute
    ∷ row 0x0E 6 op_asl absolute
    ∷ row 0x10 2 op_bpl relative
    ∷ row 0x11 5 op_ora indirect_y
    ∷ row 0x15 4 op_ora zero_page_x
    ∷ row 0x16 6 op_asl zero_page_x
    ∷ row 0x18 2 op_clc implied
    ∷ row 0x19 4 op_ora absolute_y
    ∷ row 0x1D 4 op_ora absolute_x
    ∷ row 0x1E 7 op_asl absolute_x
    ∷ row 0x20 6 op_jsr absolute
    ∷ row 0x21 6 op_and indirect_x
    ∷ row 0x24 3 op_bit zero_page
    ∷ row 0x25 3 op_and zero_page
    ∷ row 0x26 5 op_rol zero_page
    ∷ row 0x28 4 op_plp implied
    ∷ row 0x29 2 op_and immediate
    ∷ row 0x2A 2 op_rola implied
    ∷ row 0x2C 4 op_bit absolute
    ∷ row 0x2D 2 op_and absolute
    ∷ row 0x2E 6 op_rol absolute
    ∷ row 0x30 2 op_bmi relative
    ∷ row 0x31 5 op_and indirect_y
    ∷ row 0x35 4 op_and zero_page_x
    ∷ row 0x36 6 op_rol zero_page_x
    ∷ row 0x38 2 op_sec implied
    ∷ row 0x39 4 op_and absolute_y
    ∷ row 0x3D 4 op_and absolute_x
    ∷ row 0x3E 7 op_rol absolute_x
    ∷ row 0x40 6 op_rti implied
    ∷ row 0x41 6 op_eor indirect_x
    ∷ row 0x45 3 op_eor zero_page
    ∷ row 0x46 5 op_lsr zero_page
    ∷ row 0x48 3 op_pha implied
    ∷ row 0x49 2 op_eor immediate
    ∷ row 0x4A 2 op_lsra implied
    ∷ row 0x4C 3 op_jmp absolute
    ∷ row 0x4D 4 op_eor absolute
    ∷ row 0x4E 6 op_lsr absolute
    ∷ row 0x50 2 op_bvc relative
    ∷ row 0x51 5 op_eor indirect_y
    ∷ row 0x55 4 op_eor zero_page_x
    ∷ row 0x56 6 op_lsr zero_page_x
    ∷ row 0x58 2 op_cli implied
    ∷ row 0x59 4 op_eor absolute_y
    ∷ row 0x5D 4 op_eor absolute_x
    ∷ row 0x5E 7 op_lsr absolute_x
    ∷ row 0x60 6 op_rts implied
    ∷ row 0x61 6 op_adc indirect_x
    ∷ row 0x65 3 op_adc zero_page
    ∷ row 0x66 5 op_ror zero_page
    ∷ row 0x68 4 op_pla implied
    ∷ row 0x69 2 op_adc immediate
    ∷ row 0x6A 2 op_rora implied
    ∷ row 0x6C 5 op_jmp indirect
    ∷ row 0x6D 4 op_adc absolute
    ∷ row 0x6E 6 op_ror absolute
    ∷ row 0x70 2 op_bvs relative
    ∷ row 0x71 5 op_adc indirect_y
    ∷ row 0x75 4 op_adc zero_page_x
    ∷ row 0x76 6 op_ror zero_page_x
    ∷ row 0x78 2 op_sei implied
    ∷ row 0x79 4 op_adc absolute_y
    ∷ row 0x7D 4 op_adc absolute_x
    ∷ row 0x7E 7 op_ror absolute_x
    ∷ row 0x81 6 op_sta indirect_x
    ∷ row 0x84 3 op_sty zero_page
    ∷ row 0x85 3 op_sta zero_page
    ∷ row 0x86 3 op_stx zero_page
    ∷ row 0x88 2 op_dey implied
    ∷ []

abbrev pub high_rows : List Row
high_rows =
    row 0x8A 2 op_txa implied
    ∷ row 0x8C 4 op_sty absolute
    ∷ row 0x8D 4 op_sta absolute
    ∷ row 0x8E 4 op_stx absolute
    ∷ row 0x90 2 op_bcc relative
    ∷ row 0x91 6 op_sta indirect_y
    ∷ row 0x94 4 op_sty zero_page_x
    ∷ row 0x95 4 op_sta zero_page_x
    ∷ row 0x96 4 op_stx zero_page_y
    ∷ row 0x98 2 op_tya implied
    ∷ row 0x99 5 op_sta absolute_y
    ∷ row 0x9A 2 op_txs implied
    ∷ row 0x9D 5 op_sta absolute_x
    ∷ row 0xA0 2 op_ldy immediate
    ∷ row 0xA1 6 op_lda indirect_x
    ∷ row 0xA2 2 op_ldx immediate
    ∷ row 0xA4 3 op_ldy zero_page
    ∷ row 0xA5 3 op_lda zero_page
    ∷ row 0xA6 3 op_ldx zero_page
    ∷ row 0xA8 2 op_tay implied
    ∷ row 0xA9 2 op_lda immediate
    ∷ row 0xAA 2 op_tax implied
    ∷ row 0xAC 4 op_ldy absolute
    ∷ row 0xAD 4 op_lda absolute
    ∷ row 0xAE 4 op_ldx absolute
    ∷ row 0xB0 2 op_bcs relative
    ∷ row 0xB1 5 op_lda indirect_y
    ∷ row 0xB4 4 op_ldy zero_page_x
    ∷ row 0xB5 4 op_lda zero_page_x
    ∷ row 0xB6 4 op_ldx zero_page_y
    ∷ row 0xB8 2 op_clv implied
    ∷ row 0xB9 4 op_lda absolute_y
    ∷ row 0xBA 2 op_tsx implied
    ∷ row 0xBC 4 op_ldy absolute_x
    ∷ row 0xBD 4 op_lda absolute_x
    ∷ row 0xBE 4 op_ldx absolute_y
    ∷ row 0xC0 2 op_cpy immediate
    ∷ row 0xC1 6 op_cmp indirect_x
    ∷ row 0xC4 3 op_cpy zero_page
    ∷ row 0xC5 3 op_cmp zero_page
    ∷ row 0xC6 5 op_dec zero_page
    ∷ row 0xC8 2 op_iny implied
    ∷ row 0xC9 2 op_cmp immediate
    ∷ row 0xCA 2 op_dex implied
    ∷ row 0xCC 4 op_cpy absolute
    ∷ row 0xCD 4 op_cmp absolute
    ∷ row 0xCE 6 op_dec absolute
    ∷ row 0xD0 2 op_bne relative
    ∷ row 0xD1 5 op_cmp indirect_y
    ∷ row 0xD5 4 op_cmp zero_page_x
    ∷ row 0xD6 6 op_dec zero_page_x
    ∷ row 0xD8 2 op_cld implied
    ∷ row 0xD9 4 op_cmp absolute_y
    ∷ row 0xDD 4 op_cmp absolute_x
    ∷ row 0xDE 7 op_dec absolute_x
    ∷ row 0xE0 2 op_cpx immediate
    ∷ row 0xE1 6 op_sbc indirect_x
    ∷ row 0xE4 3 op_cpx zero_page
    ∷ row 0xE5 3 op_sbc zero_page
    ∷ row 0xE6 5 op_inc zero_page
    ∷ row 0xE8 2 op_inx implied
    ∷ row 0xE9 2 op_sbc immediate
    ∷ row 0xEA 2 op_nop implied
    ∷ row 0xEC 4 op_cpx absolute
    ∷ row 0xED 4 op_sbc absolute
    ∷ row 0xEE 6 op_inc absolute
    ∷ row 0xF0 2 op_beq relative
    ∷ row 0xF1 5 op_sbc indirect_y
    ∷ row 0xF5 4 op_sbc zero_page_x
    ∷ row 0xF6 6 op_inc zero_page_x
    ∷ row 0xF8 2 op_sed implied
    ∷ row 0xF9 4 op_sbc absolute_y
    ∷ row 0xFD 4 op_sbc absolute_x
    ∷ row 0xFE 7 op_inc absolute_x
    ∷ []
