-- ===== src/Nes/Ppu.antt =====
-- The registers and the memory of the picture unit: ppu.c without its drawing.
use ic_competition.Base.{
  ℕ, ◌+◌, ◌-◌, ◌*◌, ◌%◌, ◌^◌, Bool, true, false, not, ◌||◌, ◌==◌, ltb, if◌then◌else◌, bit_and,
  bit_or, bit_xor,
}
use ic_competition.Nes.State.{Ppu, store, common_bit_set, common_modify_bitb}

unfoldable pub ppu_vram_address_increment : Ppu → ℕ
ppu_vram_address_increment u = if common_bit_set u.ppuctrl 2 then 32 else 1

unfoldable pub ppu_generates_nmi : Ppu → Bool
ppu_generates_nmi u = common_bit_set u.ppuctrl 7

unfoldable pub ppu_set_sprite_0_hit : Bool → Ppu → Ppu
ppu_set_sprite_0_hit yesno u = record u { ppustatus = common_modify_bitb u.ppustatus 6 yesno }

unfoldable pub ppu_set_in_vblank : Bool → Ppu → Ppu
ppu_set_in_vblank yesno u = record u { ppustatus = common_modify_bitb u.ppustatus 7 yesno }

-- The mirrors of the palette; the branches below 0x3F00 all return the address.
unfoldable pub ppu_get_real_ram_address : ℕ → ℕ
ppu_get_real_ram_address address =
    let palette = bit_or 0x3F00 (bit_and address 0x1F) in
    if ltb address 0x3F00
    then address
    else if ltb address 0x4000
    then (if palette == 0x3F10 || palette == 0x3F14 || palette == 0x3F18 || palette == 0x3F1C
        then palette - 0x10
        else palette)
    else 0xFFFF

unfoldable pub ppu_ram_read : Ppu → ℕ → ℕ
ppu_ram_read u address = u.ppu_ram (ppu_get_real_ram_address address)

unfoldable pub ppu_ram_write : ℕ → ℕ → Ppu → Ppu
ppu_ram_write address byte u = record u {
  ppu_ram = store u.ppu_ram (ppu_get_real_ram_address address) byte;
}

-- `ppu_copy(address, source, length)`
unfoldable pub ppu_copy : ℕ → (ℕ → ℕ) → ℕ → Ppu → Ppu
ppu_copy address source len u = record u {
  ppu_ram = λ i.
      if ltb i address
      then u.ppu_ram i
      else if ltb i (address + len)
      then source (i - address)
      else u.ppu_ram i;
}

abbrev status_read : Ppu → ℕ × Ppu
status_read u = (
  u.ppustatus,
  record (ppu_set_sprite_0_hit false (ppu_set_in_vblank false u)) {
    scroll_received_x = false;
    ppuscroll = 0;
    addr_received_high_byte = false;
    latch = u.ppustatus;
    addr_latch = 0;
    first_read = true;
  },
)

abbrev data_read : Ppu → ℕ × Ppu
data_read u =
    let byte = ppu_ram_read u u.ppuaddr in
    let kept = record u { latch = if ltb u.ppuaddr 0x3F00 then byte else 0 } in
    (
      byte,
      (if u.first_read
          then record kept { first_read = false }
          else record kept { ppuaddr = (u.ppuaddr + ppu_vram_address_increment u) % 2 ^ 16 }),
    )

unfoldable pub ppuio_read : ℕ → Ppu → ℕ × Ppu
ppuio_read address u₀ =
    let u = record u₀ { ppuaddr = bit_and u₀.ppuaddr 0x3FFF } in
    let k = bit_and address 7 in
    if k == 2
    then status_read u
    else if k == 4
    then (u.sprram u.oamaddr, record u { latch = u.sprram u.oamaddr })
    else if k == 7
    then data_read u
    else (0xFF, u)

unfoldable pub ppu_sprram_write : ℕ → Ppu → Ppu
ppu_sprram_write byte u = record u {
  sprram = store u.sprram u.oamaddr byte;
  oamaddr = (u.oamaddr + 1) % 256;
}

abbrev scroll_write : ℕ → Ppu → Ppu
scroll_write byte u =
    if u.scroll_received_x
    then record u { ppuscroll_y = byte; scroll_received_x = false }
    else record u { ppuscroll_x = byte; scroll_received_x = true }

-- Where the unit is not ready the function returns at once.
abbrev addr_write : ℕ → Ppu → Ppu
addr_write byte u =
    if not u.ready
    then u
    else if u.addr_received_high_byte
    then record u {
      ppuaddr = (u.addr_latch * 256 + byte) % 2 ^ 16;
      addr_received_high_byte = false;
      first_read = true;
    }
    else record u { addr_latch = byte; addr_received_high_byte = true; first_read = true }

-- Every address is above 0x1FFF or below 0x4000, so both writes are always made.
abbrev data_write : ℕ → Ppu → Ppu
data_write byte u =
    ppu_ram_write u.ppuaddr byte (ppu_ram_write (bit_xor u.ppuaddr u.mirroring_xor) byte u)

unfoldable pub ppuio_write : ℕ → ℕ → Ppu → Ppu
ppuio_write address byte u₀ =
    let u = record u₀ { ppuaddr = bit_and u₀.ppuaddr 0x3FFF; latch = byte } in
    let k = bit_and address 7 in
    if k == 0
    then (if u.ready then record u { ppuctrl = byte } else u)
    else if k == 1
    then (if u.ready then record u { ppumask = byte } else u)
    else if k == 3
    then record u { oamaddr = byte }
    else if k == 4
    then ppu_sprram_write byte u
    else if k == 5
    then scroll_write byte u
    else if k == 6
    then addr_write byte u
    else if k == 7
    then data_write byte u
    else u

-- The registers at power up; the tables of the pattern bits belong to the drawing.
unfoldable pub ppu_init : Ppu → Ppu
ppu_init u = record u {
  ppuctrl = 0;
  ppumask = 0;
  ppustatus = bit_or 0 0xA0;
  oamaddr = 0;
  ppuscroll_x = 0;
  ppuscroll_y = 0;
  ppuaddr = 0;
  ppudata = 0;
  first_read = true;
}

unfoldable pub ppu_set_mirroring : ℕ → Ppu → Ppu
ppu_set_mirroring m u = record u { mirroring = m; mirroring_xor = 0x400 * 2 ^ m }
