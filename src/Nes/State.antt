-- ===== src/Nes/State.antt =====
-- The static variables of cpu.c, ppu.c, mmc.c and psg.c, and the bit operations of common.c. A byte
-- is a number below 256, a word one below 65536, and an `int` its 32-bit pattern.
use ic_competition.Base.{ℕ, ◌-◌, ◌^◌, Bool, not, ◌==◌, if◌then◌else◌, bit_and, bit_or}

-- CPU_STATE of cpu-internal.h
pub record Cpu : Type 0 where
  pub pc : ℕ
  pub sp : ℕ
  pub a : ℕ
  pub x : ℕ
  pub y : ℕ
  pub p : ℕ

-- PPU_STATE of ppu.h, as far as the registers use it, and the latches and memories of ppu.c. What
-- `ppu_ram` holds from 0x4000 on is no part of PPU_RAM: C leaves an access there undefined.
pub record Ppu : Type 0 where
  pub ppuctrl : ℕ
  pub ppumask : ℕ
  pub ppustatus : ℕ
  pub oamaddr : ℕ
  pub ppuscroll : ℕ
  pub ppuscroll_x : ℕ
  pub ppuscroll_y : ℕ
  pub ppuaddr : ℕ
  pub ppudata : ℕ
  pub scroll_received_x : Bool
  pub addr_received_high_byte : Bool
  pub ready : Bool
  pub mirroring : ℕ
  pub mirroring_xor : ℕ
  pub first_read : Bool
  pub addr_latch : ℕ
  pub latch : ℕ
  pub sprram : ℕ → ℕ
  pub ppu_ram : ℕ → ℕ

-- `p`, `key_state` and `prev_write` of psg.c
pub record Psg : Type 0 where
  pub strobe : ℕ
  pub key_state : ℕ → ℕ
  pub prev_write : ℕ

-- The whole machine. `chr_pages` is the static array of mmc.c, flattened; it has one page of 0x2000
-- bytes, and C leaves a read behind it undefined.
pub record Nes : Type 0 where
  pub cpu : Cpu
  pub cpu_ram : ℕ → ℕ
  pub op_value : ℕ
  pub op_address : ℕ
  pub op_cycles : ℕ
  pub ppu : Ppu
  pub psg : Psg
  pub mmc_id : ℕ
  pub chr_pages : ℕ → ℕ
  pub memory : ℕ → ℕ

abbrev pub store : (ℕ → ℕ) → ℕ → ℕ → ℕ → ℕ
store m i v j = if i == j then v else m j

unfoldable pub common_bit_set : ℕ → ℕ → Bool
common_bit_set value position = not (bit_and value (2 ^ position) == 0)

unfoldable pub common_set_bitb : ℕ → ℕ → ℕ
common_set_bitb variable position = bit_or variable (2 ^ position)

unfoldable pub common_unset_bitb : ℕ → ℕ → ℕ
common_unset_bitb variable position = bit_and variable (255 - 2 ^ position)

unfoldable pub common_modify_bitb : ℕ → ℕ → Bool → ℕ
common_modify_bitb variable position value =
    if value then common_set_bitb variable position else common_unset_bitb variable position
