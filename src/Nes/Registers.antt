-- ===== src/Nes/Registers.antt =====
-- The bits of PPUCTRL, PPUMASK and PPUSTATUS under the names of ppu.c.
use ic_competition.Base.{
  ℕ, ◌+◌, ◌*◌, ◌/◌, ◌%◌, ◌<◌, ◌≡◌, refl, ◌∙◌, Bool, true, false, [], ◌∷◌, arith, ◌==◌, ltb,
  if◌then◌else◌, get_or, bit_and,
}
use ic_competition.Base.Table.{tabulate, tabulate_at}
use ic_competition.Nes.State.{
  Ppu, common_bit_set, common_modify_bitb, common_set_bitb, common_unset_bitb,
}
use ic_competition.Nes.Ppu.{ppuio_read, ppu_set_in_vblank, ppu_set_sprite_0_hit}
use ic_competition.Nes.Carry.{same, same→≡, both, both_at}

unfoldable pub ppu_base_nametable_address : Ppu → ℕ
ppu_base_nametable_address u =
    get_or (0x2000 ∷ 0x2400 ∷ 0x2800 ∷ 0x2C00 ∷ []) (bit_and u.ppuctrl 3) 0

unfoldable pub ppu_sprite_pattern_table_address : Ppu → ℕ
ppu_sprite_pattern_table_address u = if common_bit_set u.ppuctrl 3 then 0x1000 else 0

unfoldable pub ppu_background_pattern_table_address : Ppu → ℕ
ppu_background_pattern_table_address u = if common_bit_set u.ppuctrl 4 then 0x1000 else 0

unfoldable pub ppu_sprite_height : Ppu → ℕ
ppu_sprite_height u = if common_bit_set u.ppuctrl 5 then 16 else 8

-- The eight bits of PPUMASK have the same pair of functions: from 0, renders_grayscale,
-- shows_background_in_leftmost_8px, shows_sprites_in_leftmost_8px, shows_background, shows_sprites,
-- intensifies_reds, intensifies_greens and intensifies_blues.
unfoldable pub ppu_mask : ℕ → Ppu → Bool
ppu_mask position u = common_bit_set u.ppumask position

unfoldable pub ppu_set_mask : ℕ → Bool → Ppu → Ppu
ppu_set_mask position yesno u = record u { ppumask = common_modify_bitb u.ppumask position yesno }

unfoldable pub ppu_sprite_overflow : Ppu → Bool
ppu_sprite_overflow u = common_bit_set u.ppustatus 5

unfoldable pub ppu_sprite_0_hit : Ppu → Bool
ppu_sprite_0_hit u = common_bit_set u.ppustatus 6

unfoldable pub ppu_in_vblank : Ppu → Bool
ppu_in_vblank u = common_bit_set u.ppustatus 7

unfoldable pub ppu_set_sprite_overflow : Bool → Ppu → Ppu
ppu_set_sprite_overflow yesno u = record u { ppustatus = common_modify_bitb u.ppustatus 5 yesno }

-- A byte with one bit changed, at the bits `i` and `j`; the index holds the byte and both bits.
abbrev bit_test : ℕ → ℕ → ℕ → Bool → Bool
bit_test v i j b =
    same (common_bit_set (common_modify_bitb v i b) j) (if i == j then b else common_bit_set v j)

abbrev bit_index : ℕ → Bool
bit_index n = both (bit_test (n / 64) (n % 64 / 8) (n % 8))

bit_table : tabulate bit_index 16384 ≡ true
unfolding tabulate common_bit_set common_modify_bitb common_set_bitb common_unset_bitb
bit_table = refl

modify_bit :
    (v i j : ℕ) (b : Bool)
    → v < 256
    → i < 8
    → j < 8
    → common_bit_set (common_modify_bitb v i b) j ≡ (if i == j then b else common_bit_set v j)
modify_bit v i j b hv hi hj =
    let n = v * 64 + i * 8 + j in
    let e1 : n / 64 ≡ v = omega arith in
    let e2 : n % 64 / 8 ≡ i = omega arith in
    let e3 : n % 8 ≡ j = omega arith in
    same→≡ _ _ (
      both_at (bit_test v i j) b
        (rw (e1, e2, e3) at (tabulate_at bit_index n 16384 (omega arith) bit_table)))

-- Setting a bit of PPUMASK to a value makes that bit read as the value, and leaves how the other
-- seven read.
pub ppu_mask-ppu_set_mask :
    (i j : ℕ) (b : Bool) (u : Ppu)
    → u.ppumask < 256
    → i < 8
    → j < 8
    → ppu_mask j (ppu_set_mask i b u) ≡ (if i == j then b else ppu_mask j u)
unfolding ppu_mask ppu_set_mask
ppu_mask-ppu_set_mask i j b u h hi hj = modify_bit u.ppumask i j b h hi hj

unset_table : tabulate (λ v. ltb (common_modify_bitb v 7 false) 256) 256 ≡ true
unfolding tabulate common_modify_bitb common_unset_bitb
unset_table = refl

unset_byte : (v : ℕ) → v < 256 → common_modify_bitb v 7 false < 256
unset_byte v h =
    let t = tabulate_at (λ v. ltb (common_modify_bitb v 7 false) 256) v 256 h unset_table in
    ground arith

-- A read of the status register, at any mirror of 0x2002, returns PPUSTATUS as it was, and afterwards
-- neither the vertical blank nor a hit of sprite 0 is signalled, the overflow of sprites is signalled
-- as before, and both address latches start anew.
pub ppuio_read-status :
    (address : ℕ) (u : Ppu)
    → u.ppustatus < 256
    → bit_and address 7 ≡ 2
    → ((ppuio_read address u).0 ≡ u.ppustatus)
      × (ppu_in_vblank (ppuio_read address u).1 ≡ false)
      × (ppu_sprite_0_hit (ppuio_read address u).1 ≡ false)
      × (ppu_sprite_overflow (ppuio_read address u).1 ≡ ppu_sprite_overflow u)
      × ((ppuio_read address u).1.addr_received_high_byte ≡ false)
      × ((ppuio_read address u).1.scroll_received_x ≡ false)
unfolding ppuio_read ppu_in_vblank ppu_sprite_0_hit ppu_sprite_overflow ppu_set_in_vblank
    ppu_set_sprite_0_hit
ppuio_read-status address u h e =
    let q = common_modify_bitb u.ppustatus 7 false in
    let byte : q < 256 = unset_byte u.ppustatus h in
    rw e (
      refl,
      modify_bit q 6 7 false byte (omega arith) (omega arith)
          ∙ modify_bit u.ppustatus 7 7 false h (omega arith) (omega arith),
      modify_bit q 6 6 false byte (omega arith) (omega arith),
      modify_bit q 6 5 false byte (omega arith) (omega arith)
          ∙ modify_bit u.ppustatus 7 5 false h (omega arith) (omega arith),
      refl,
      refl,
    )
