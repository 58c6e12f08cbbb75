-- ===== src/Sim/Memory.antt =====
-- The memory of the simulator, core/csrc/memory.cpp, and its devices, core/csrc/device/mmio.cpp.
-- `none` is a panic, which ends the program. The reads and writes of the circuit come in here.
pub mod Words
pub mod Access
use ic_competition.Base.{
  ℕ, ◌+◌, ◌-◌, ◌*◌, ◌/◌, ◌%◌, ◌^◌, ◌==◌, ltb, if◌then◌else◌, Bool, true, false, Option, none, some,
  List, [], ◌∷◌,
}
use ic_competition.Klib.Memory.{Mem, write}

abbrev pub mem_max : ℕ
mem_max = 0x8000000

abbrev pub mem_base : ℕ
mem_base = 0x80000000

-- `pmem` from its first byte on, the port of the clock, the bytes sent to stderr with the last one
-- first, and whether difftest_skip_ref() was called since the flag was cleared.
pub record Bus : Type 0 where
  pub pmem : Mem
  pub rtc_0 : ℕ
  pub rtc_1 : ℕ
  pub serial : List ℕ
  pub skipped : Bool

-- `addr - MEM_BASE < MEM_MAX` in 32 bits
abbrev pub in_mem : ℕ → Bool
in_mem addr = ltb ((addr + 2 ^ 32 - mem_base) % 2 ^ 32) mem_max

-- `(addr & ~0x3u) - MEM_BASE`
abbrev pub word_place : ℕ → ℕ
word_place addr = addr / 4 * 4 - mem_base

-- `*(uint32_t *)paddr` on a little-endian host
abbrev pub word_at : Mem → ℕ → ℕ
word_at m p = m p + m (p + 1) * 2 ^ 8 + m (p + 2) * 2 ^ 16 + m (p + 3) * 2 ^ 24

unfoldable pub read_inst : ℕ → Bus → Option ℕ
read_inst addr b = if in_mem addr then some (word_at b.pmem (word_place addr)) else none

abbrev pub skip_ref : Bus → Bus
skip_ref b = record b { skipped = true }

-- `us` is what get_time() returns.
abbrev pub rtc_port_update : ℕ → Bus → Bus
rtc_port_update us b = record b { rtc_0 = us % 2 ^ 32; rtc_1 = us / 2 ^ 32 % 2 ^ 32 }

unfoldable pub mmio_read : ℕ → ℕ → Bus → Option (ℕ × Bus)
mmio_read us addr b =
    if addr == 0xa0000048
    then some (b.rtc_0, b)
    else if addr == 0xa0000048 + 4
    then (let u = rtc_port_update us b in some (u.rtc_1, u))
    else none

unfoldable pub mmio_write : ℕ → ℕ → Bus → Option Bus
mmio_write addr data_ b =
    if addr == 0x10000000 then some (record b { serial = (data_ % 256) ∷ b.serial }) else none

-- The byte `k` of a word, and the bit `k` of a mask.
abbrev pub byte_of : ℕ → ℕ → ℕ
byte_of w k = w / 2 ^ (8 * k) % 256

abbrev pub in_mask : ℕ → ℕ → Bool
in_mask wmask k = wmask / 2 ^ k % 2 == 1

-- `if (wmask & (1 << k)) paddr[k] = (wdata >> (8 * k)) & 0xff;`
abbrev pub write_byte : ℕ → ℕ → ℕ → ℕ → Mem → Mem
write_byte p wdata wmask k m = if in_mask wmask k then write m (p + k) (byte_of wdata k) else m

abbrev pub write_word : ℕ → ℕ → ℕ → Mem → Mem
write_word p wdata wmask m =
    write_byte p wdata wmask 3
      (write_byte p wdata wmask 2 (write_byte p wdata wmask 1 (write_byte p wdata wmask 0 m)))

-- `device` is CONFIG_DEVICE.
module _ (device : Bool) where
  unfoldable pub pmem_read : ℕ → ℕ → Bus → Option (ℕ × Bus)
  pmem_read us raddr b =
      if in_mem raddr
      then some (word_at b.pmem (word_place raddr), b)
      else if device
      then mmio_read us raddr (skip_ref b)
      else none

  unfoldable pub pmem_write : ℕ → ℕ → ℕ → Bus → Option Bus
  pmem_write waddr wdata wmask b =
      if in_mem waddr
      then some (record b { pmem = write_word (word_place waddr) wdata wmask b.pmem })
      else if device
      then mmio_write waddr wdata (skip_ref b)
      else none
