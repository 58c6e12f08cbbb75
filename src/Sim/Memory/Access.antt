-- ===== src/Sim/Memory/Access.antt =====
-- Reads after writes, and the accesses outside the memory.
use ic_competition.Base.{
  ℕ, ◌+◌, ◌*◌, ◌/◌, ◌%◌, ◌^◌, ◌<◌, ◌≡◌, ◌≢◌, refl, ap, sym, ◌∙◌, ◌⊎◌, ◌↔◌, inl, inr, ◌==◌,
  if◌then◌else◌, Bool, true, false, none, some, arith,
}
use ic_competition.Klib.Memory.{Mem}
use ic_competition.Sim.Memory.{
  Bus, in_mem, word_place, word_at, read_inst, write_word, pmem_read, pmem_write, mmio_read,
  mmio_write, skip_ref,
}
use ic_competition.Sim.Memory.Words.{stored, word_of, write_word-stored}

-- After a write: the memory at every word, for the circuit's reads and for the fetch of instructions.
pub record Written (device : Bool) (waddr wdata wmask : ℕ) (b : Bus) : Type 0 where
  pub after : Bus
  pub writes : pmem_write device waddr wdata wmask b ≡ some after
  pub reads :
      (us raddr : ℕ)
      → raddr < 2 ^ 32
      → in_mem raddr ≡ true
      → pmem_read device us raddr after
        ≡ some (word_of (stored raddr waddr wdata wmask b.pmem), after)
  pub fetches :
      (raddr : ℕ)
      → raddr < 2 ^ 32
      → in_mem raddr ≡ true
      → read_inst raddr after ≡ some (word_of (stored raddr waddr wdata wmask b.pmem))
  pub devices :
      (after.rtc_0 ≡ b.rtc_0)
      × (after.rtc_1 ≡ b.rtc_1)
      × (after.serial ≡ b.serial)
      × (after.skipped ≡ b.skipped)

word_at-write_word :
    (raddr waddr wdata wmask : ℕ) (m : Mem)
    → raddr < 2 ^ 32
    → waddr < 2 ^ 32
    → in_mem raddr ≡ true
    → in_mem waddr ≡ true
    → word_at (write_word (word_place waddr) wdata wmask m) (word_place raddr)
      ≡ word_of (stored raddr waddr wdata wmask m)
word_at-write_word raddr waddr wdata wmask m rlt wlt rin win =
    let byte =
      λ (k : ℕ) (lt : k < 4). write_word-stored raddr waddr wdata wmask k m rlt wlt rin win lt in
    let zeroth : word_place raddr + 0 ≡ word_place raddr = omega arith in
    omega (
      arith,
      ap (write_word (word_place waddr) wdata wmask m) zeroth,
      byte 0 (omega arith),
      byte 1 (omega arith),
      byte 2 (omega arith),
      byte 3 (omega arith),
    )

-- A write to the memory succeeds, and changes exactly the bytes of its word that the mask selects, to
-- the bytes of the data: for every word that is read or fetched later. The devices stay as they were.
pub pmem_write-Written :
    (device : Bool) (waddr wdata wmask : ℕ) (b : Bus)
    → waddr < 2 ^ 32
    → in_mem waddr ≡ true
    → Written device waddr wdata wmask b
unfolding pmem_write pmem_read read_inst
pmem_write-Written device waddr wdata wmask b wlt win =
    let word = λ (raddr : ℕ) (rlt : raddr < 2 ^ 32) (rin : in_mem raddr ≡ true).
      word_at-write_word raddr waddr wdata wmask b.pmem rlt wlt rin win in
    record {
      after = record b { pmem = write_word (word_place waddr) wdata wmask b.pmem };
      writes = rw win refl;
      reads = λ us raddr rlt rin. rw (rin, word raddr rlt rin) refl;
      fetches = λ raddr rlt rin. rw (rin, word raddr rlt rin) refl;
      devices = (refl, refl, refl, refl);
    }

-- The clock's high port, read at the time `us`, and its low port, read whenever, give the time `us`.
pub record Clocked (us later : ℕ) (b : Bus) : Type 0 where
  pub high : ℕ
  pub between : Bus
  pub low : ℕ
  pub after : Bus
  pub first : pmem_read true us 0xa000004c b ≡ some (high, between)
  pub second :
      (flag : Bool)
      → pmem_read true later 0xa0000048 (record between { skipped = flag }) ≡ some (low, after)
  pub time : low + high * 2 ^ 32 ≡ us % 2 ^ 64
  pub unchanged : (after.pmem ≡ b.pmem) × (after.serial ≡ b.serial)
  pub skips : (between.skipped ≡ true) × (after.skipped ≡ true)

-- With devices, a read of the clock's high port followed at any time by one of its low port gives
-- the 64-bit time of the first; each of the two takes the reference out of the comparison, whether
-- or not it was in it before, and changes no memory.
pub pmem_read-Clocked : (us later : ℕ) (b : Bus) → Clocked us later b
unfolding pmem_read mmio_read
pmem_read-Clocked us later b = record {
  high = us / 2 ^ 32 % 2 ^ 32;
  between = record b { rtc_0 = us % 2 ^ 32; rtc_1 = us / 2 ^ 32 % 2 ^ 32; skipped = true };
  low = us % 2 ^ 32;
  after = record b { rtc_0 = us % 2 ^ 32; rtc_1 = us / 2 ^ 32 % 2 ^ 32; skipped = true };
  first = refl;
  second = λ flag. refl;
  time = omega arith;
  unchanged = (refl, refl);
  skips = (refl, refl);
}

-- The clock's two ports.
abbrev pub is_clock : ℕ → Bool
is_clock addr = if addr == 0xa0000048 then true else addr == 0xa000004c

mmio_read-none : (us addr : ℕ) (b : Bus) → (mmio_read us addr b ≡ none) ↔ (is_clock addr ≡ false)
unfolding mmio_read
mmio_read-none us addr b = (λ h. ground arith, λ h. ground arith)

mmio_write-none :
    (addr wdata : ℕ) (b : Bus) → (mmio_write addr wdata b ≡ none) ↔ (addr ≢ 0x10000000)
unfolding mmio_write
mmio_write-none addr wdata b = (λ h e. ground arith, λ h. ground arith)

read_device :
    (us addr : ℕ) (b : Bus)
    → in_mem addr ≡ false
    → pmem_read true us addr b ≡ mmio_read us addr (skip_ref b)
unfolding pmem_read
read_device us addr b out = rw out refl

write_device :
    (addr wdata wmask : ℕ) (b : Bus)
    → in_mem addr ≡ false
    → pmem_write true addr wdata wmask b ≡ mmio_write addr wdata (skip_ref b)
unfolding pmem_write
write_device addr wdata wmask b out = rw out refl

-- Outside the memory a read panics without devices and at every address but the clock's two ports,
-- and a write panics without devices and at every address but that of the serial port.
pub access_outside :
    (device : Bool) (us addr wdata wmask : ℕ) (b : Bus)
    → in_mem addr ≡ false
    → ((pmem_read device us addr b ≡ none) ↔ ((device ≡ false) ⊎ (is_clock addr ≡ false)))
      × ((pmem_write device addr wdata wmask b ≡ none) ↔ ((device ≡ false) ⊎ (addr ≢ 0x10000000)))
unfolding pmem_read pmem_write
access_outside false us addr wdata wmask b out =
    ((λ h. inl refl, λ h. rw out refl), (λ h. inl refl, λ h. rw out refl))
access_outside true us addr wdata wmask b out =
    let read = read_device us addr b out in
    let write = write_device addr wdata wmask b out in
    let clock = mmio_read-none us addr (skip_ref b) in
    let serial = mmio_write-none addr wdata (skip_ref b) in
    (
      (
        λ h. inr (clock.0 (sym read ∙ h)),
        λ h. elim h [ inl e ↦ absurd (ground arith) | inr e ↦ read ∙ clock.1 e ],
      ),
      (
        λ h. inr (serial.0 (sym write ∙ h)),
        λ h. elim h [ inl e ↦ absurd (ground arith) | inr e ↦ write ∙ serial.1 e ],
      ),
    )
