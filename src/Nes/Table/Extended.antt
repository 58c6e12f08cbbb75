-- ===== src/Nes/Table/Extended.antt =====
-- The extended instructions and those without an effect, in the order of cpu_init() of cpu.c.
use ic_competition.Base.{List, [], ◌∷◌}
use ic_competition.Nes.Table.Kinds.{
  Row, row, op_aso, op_axa, op_axs, op_dcm, op_fe, op_ins, op_lax, op_lse, op_rla, op_rra, op_sbc,
  absolute, absolute_x, absolute_y, immediate, implied, indirect_x, indirect_y, zero_page,
  zero_page_x, zero_page_y,
}

abbrev pub extended_rows : List Row
extended_rows =
    row 0x03 8 op_aso indirect_x
    ∷ row 0x07 5 op_aso zero_page
    ∷ row 0x0F 6 op_aso absolute
    ∷ row 0x13 8 op_aso indirect_y
    ∷ row 0x17 6 op_aso zero_page_x
    ∷ row 0x1B 7 op_aso absolute_y
    ∷ row 0x1F 7 op_aso absolute_x
    ∷ row 0x23 8 op_rla indirect_x
    ∷ row 0x27 5 op_rla zero_page
    ∷ row 0x2F 6 op_rla absolute
    ∷ row 0x33 8 op_rla indirect_y
    ∷ row 0x37 6 op_rla zero_page_x
    ∷ row 0x3B 7 op_rla absolute_y
    ∷ row 0x3F 7 op_rla absolute_x
    ∷ row 0x43 8 op_lse indirect_x
    ∷ row 0x47 5 op_lse zero_page
    ∷ row 0x4F 6 op_lse absolute
    ∷ row 0x53 8 op_lse indirect_y
    ∷ row 0x57 6 op_lse zero_page_x
    ∷ row 0x5B 7 op_lse absolute_y
    ∷ row 0x5F 7 op_lse absolute_x
    ∷ row 0x63 8 op_rra indirect_x
    ∷ row 0x67 5 op_rra zero_page
    ∷ row 0x6F 6 op_rra absolute
    ∷ row 0x73 8 op_rra indirect_y
    ∷ row 0x77 6 op_rra zero_page_x
    ∷ row 0x7B 7 op_rra absolute_y
    ∷ row 0x7F 7 op_rra absolute_x
    ∷ row 0x83 6 op_axs indirect_x
    ∷ row 0x87 3 op_axs zero_page
    ∷ row 0x8F 4 op_axs absolute
    ∷ row 0x93 6 op_axa indirect_y
    ∷ row 0x97 4 op_axs zero_page_y
    ∷ row 0x9F 5 op_axa absolute_y
    ∷ row 0xA3 6 op_lax indirect_x
    ∷ row 0xA7 3 op_lax zero_page
    ∷ row 0xAF 4 op_lax absolute
    ∷ row 0xB3 5 op_lax indirect_y
    ∷ row 0xB7 4 op_lax zero_page_y
    ∷ row 0xBF 4 op_lax absolute_y
    ∷ row 0xC3 8 op_dcm indirect_x
    ∷ row 0xC7 5 op_dcm zero_page
    ∷ row 0xCF 6 op_dcm absolute
    ∷ row 0xD3 8 op_dcm indirect_y
    ∷ row 0xD7 6 op_dcm zero_page_x
    ∷ row 0xDB 7 op_dcm absolute_y
    ∷ row 0xDF 7 op_dcm absolute_x
    ∷ row 0xE3 8 op_ins indirect_x
    ∷ row 0xE7 5 op_ins zero_page
    ∷ row 0xEB 2 op_sbc immediate
    ∷ row 0xEF 6 op_ins absolute
    ∷ row 0xF3 8 op_ins indirect_y
    ∷ row 0xF7 6 op_ins zero_page_x
    ∷ row 0xFB 7 op_ins absolute_y
    ∷ row 0xFF 7 op_ins absolute_x
    ∷ []

abbrev pub future_rows : List Row
future_rows =
    row 0x04 1 op_fe zero_page
    ∷ row 0x0C 1 op_fe absolute
    ∷ row 0x14 1 op_fe zero_page_x
    ∷ row 0x1A 1 op_fe implied
    ∷ row 0x1C 1 op_fe absolute_x
    ∷ row 0x34 1 op_fe zero_page_x
    ∷ row 0x3A 1 op_fe implied
    ∷ row 0x3C 1 op_fe absolute_x
    ∷ row 0x44 1 op_fe zero_page
    ∷ row 0x54 1 op_fe zero_page_x
    ∷ row 0x5A 1 op_fe implied
    ∷ row 0x5C 1 op_fe absolute_x
    ∷ row 0x64 1 op_fe zero_page
    ∷ row 0x74 1 op_fe zero_page_x
    ∷ row 0x7A 1 op_fe implied
    ∷ row 0x7C 1 op_fe absolute_x
    ∷ row 0x80 1 op_fe immediate
    ∷ row 0xD4 1 op_fe zero_page_x
    ∷ row 0xDA 1 op_fe implied
    ∷ row 0xDC 1 op_fe absolute_x
    ∷ row 0xF4 1 op_fe zero_page_x
    ∷ row 0xFA 1 op_fe implied
    ∷ row 0xFC 1 op_fe absolute_x
    ∷ []
