-- ===== src/Nes/Mirror.antt =====
-- The processor's RAM of 2048 bytes shows four times below 0x2000.
use ic_competition.Base.{
  ℕ, ◌/◌, ◌%◌, ◌<◌, ◌≡◌, refl, ap, ◌∙◌, true, false, arith, ◌==◌, if◌then◌else◌, bit_and,
}
use ic_competition.Base.Table.{tabulate, tabulate_at}
use ic_competition.Nes.State.{Nes, store}
use ic_competition.Nes.Memory.{memory_readb, memory_writeb, cpu_ram_read, cpu_ram_write}

mask_table : tabulate (λ a. bit_and a 0x7FF == a % 0x800) 0x2000 ≡ true
unfolding tabulate
mask_table = refl

mask : (a : ℕ) → a < 0x2000 → bit_and a 0x7FF ≡ a % 0x800
mask a h =
    let t = tabulate_at (λ a. bit_and a 0x7FF == a % 0x800) a 0x2000 h mask_table in ground arith

mask_twice : (a : ℕ) → a < 0x2000 → bit_and (a % 0x800) 0x7FF ≡ a % 0x800
mask_twice a h = mask (a % 0x800) (omega arith) ∙ omega arith

readb_low : (a : ℕ) (s : Nes) → a < 0x2000 → (memory_readb a s).0 ≡ s.cpu_ram (a % 0x800)
unfolding memory_readb cpu_ram_read
readb_low a s h =
    let e : a / 0x2000 ≡ 0 = omega arith in rw (e, mask a h) (ap s.cpu_ram (mask_twice a h))

writeb_low :
    (a v : ℕ) (s : Nes)
    → a < 0x2000
    → memory_writeb a v s ≡ record s { cpu_ram = store s.cpu_ram (a % 0x800) v }
unfolding memory_writeb cpu_ram_write
writeb_low a v s h =
    let e : a / 0x2000 ≡ 0 = omega arith in
    let ne : (a == 0x4014) ≡ false = ground arith in
    rw (ne, e, mask a h) (ap (λ i. record s { cpu_ram = store s.cpu_ram i v }) (mask_twice a h))

-- Below 0x2000 a read after a write gives the written byte exactly at the addresses that differ from
-- the written one by a multiple of 2048, and at every other address what stood there before.
pub memory_readb-memory_writeb :
    (a b v : ℕ) (s : Nes)
    → a < 0x2000
    → b < 0x2000
    → (memory_readb b (memory_writeb a v s)).0
      ≡ (if a % 0x800 == b % 0x800 then v else (memory_readb b s).0)
memory_readb-memory_writeb a b v s ha hb =
    rw (writeb_low a v s ha, readb_low b s hb) (readb_low b _ hb)
