-- ===== src/Nes/Memory.antt =====
-- The memory map of memory.c, with mmc.c behind 0x8000, the processor's RAM of cpu.c and the
-- joystick of psg.c.
use ic_competition.Base.{
  ℕ, zero, suc, ◌+◌, ◌-◌, ◌*◌, ◌/◌, ◌%◌, ◌^◌, ◌&&◌, ◌==◌, ltb, if◌then◌else◌, bit_and, List, [],
  ◌∷◌, get_or,
}
use ic_competition.Nes.State.{Nes, Psg, Ppu, store}
use ic_competition.Nes.Ppu.{ppuio_read, ppuio_write, ppu_sprram_write, ppu_copy}

unfoldable pub cpu_ram_read : ℕ → Nes → ℕ
cpu_ram_read address s = s.cpu_ram (bit_and address 0x7FF)

unfoldable pub cpu_ram_write : ℕ → ℕ → Nes → Nes
cpu_ram_write address byte s = record s { cpu_ram = store s.cpu_ram (bit_and address 0x7FF) byte }

unfoldable pub mmc_read : ℕ → Nes → ℕ
mmc_read address s = s.memory address

unfoldable pub mmc_write : ℕ → ℕ → Nes → Nes
mmc_write address byte s =
    let page : ℕ → ℕ = λ i. s.chr_pages (bit_and byte 3 * 0x2000 + i) in
    let u = if s.mmc_id == 3 then ppu_copy 0 page 0x2000 s.ppu else s.ppu in
    record s { ppu = u; memory = store s.memory address byte }

-- `mmc_copy(address, source, length)`
unfoldable pub mmc_copy : ℕ → (ℕ → ℕ) → ℕ → Nes → Nes
mmc_copy address source len s = record s {
  memory = λ i.
      if ltb i address
      then s.memory i
      else if ltb i (address + len)
      then source (i - address)
      else s.memory i;
}

unfoldable pub psg_init : Psg → Psg
psg_init g = record g { key_state = store g.key_state 0 1 }

-- `MAP`: the key codes of A, B, select, start, up, down, left and right from the second place on
abbrev pub key_map : List ℕ
key_map = 0 ∷ 49 ∷ 50 ∷ 35 ∷ 36 ∷ 30 ∷ 44 ∷ 43 ∷ 45 ∷ 255 ∷ []

-- `p` is an `int`, kept as its 32-bit pattern; past 2 ^ 31 - 1 its increment is undefined in C.
unfoldable pub psgio_read : ℕ → Psg → ℕ × Psg
psgio_read address g =
    if address == 0x4016
    then (
      (if ltb g.strobe 9 then g.key_state (get_or key_map (g.strobe + 1) 0) % 256 else 0),
      record g { strobe = (g.strobe + 1) % 2 ^ 32 },
    )
    else (0, g)

unfoldable pub psgio_write : ℕ → ℕ → Psg → Psg
psgio_write address byte g =
    let strobes = address == 0x4016 && bit_and byte 1 == 0 && g.prev_write == 1 in
    record g { strobe = if strobes then 0 else g.strobe; prev_write = bit_and byte 1 }

abbrev with_ppu : Nes → ℕ × Ppu → ℕ × Nes
with_ppu s r = (r.0, record s { ppu = r.1 })

abbrev with_psg : Nes → ℕ × Psg → ℕ × Nes
with_psg s r = (r.0, record s { psg = r.1 })

-- The byte, and the machine after the read; `address >> 13` chooses the device.
unfoldable pub memory_readb : ℕ → Nes → ℕ × Nes
memory_readb address s =
    let k = address / 0x2000 in
    if k == 0
    then (cpu_ram_read (bit_and address 0x7FF) s, s)
    else if k == 1
    then with_ppu s (ppuio_read address s.ppu)
    else if k == 2
    then with_psg s (psgio_read address s.psg)
    else if k == 3
    then (cpu_ram_read (bit_and address 0x1FFF) s, s)
    else (mmc_read address s, s)

-- The loop of the DMA transfer, with the rounds left first.
unfoldable pub dma_loop : ℕ → ℕ → ℕ → Nes → Nes
dma_loop zero i byte s = s
dma_loop (suc n) i byte s =
    dma_loop n (i + 1) byte
      (record s { ppu = ppu_sprram_write (cpu_ram_read (0x100 * byte + i) s) s.ppu })

unfoldable pub memory_writeb : ℕ → ℕ → Nes → Nes
memory_writeb address byte s =
    let k = address / 0x2000 in
    if address == 0x4014
    then dma_loop 256 0 byte s
    else if k == 0
    then cpu_ram_write (bit_and address 0x7FF) byte s
    else if k == 1
    then record s { ppu = ppuio_write address byte s.ppu }
    else if k == 2
    then record s { psg = psgio_write address byte s.psg }
    else if k == 3
    then cpu_ram_write (bit_and address 0x1FFF) byte s
    else mmc_write address byte s

-- C does not say which byte is read first; here it is the low one.
unfoldable pub memory_readw : ℕ → Nes → ℕ × Nes
memory_readw address s =
    let (low, s1) = memory_readb address s in
    let (high, s2) = memory_readb ((address + 1) % 2 ^ 16) s1 in ((low + high * 256) % 2 ^ 16, s2)

unfoldable pub memory_writew : ℕ → ℕ → Nes → Nes
memory_writew address word s =
    memory_writeb ((address + 1) % 2 ^ 16) (word / 256)
      (memory_writeb address (bit_and word 0xFF) s)
