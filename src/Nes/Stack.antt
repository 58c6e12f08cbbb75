-- ===== src/Nes/Stack.antt =====
-- The stack of the processor: what is pushed comes back, and a subroutine returns.
use ic_competition.Base.{
  ℕ, ◌+◌, ◌*◌, ◌/◌, ◌%◌, ◌^◌, ◌<◌, ◌≡◌, refl, ap, ◌∙◌, true, false, arith, ◌==◌, bit_and,
}
use ic_competition.Base.Table.{tabulate, tabulate_at}
use ic_competition.Nes.State.{Nes, store}
use ic_competition.Nes.Memory.{
  memory_readb, memory_writeb, memory_readw, memory_writew, cpu_ram_read, cpu_ram_write,
}
use ic_competition.Nes.Flags.{cpu_stack_pushw, cpu_stack_popw, set_sp, set_pc}
use ic_competition.Nes.Ops.{jsr, rts}

ram_mask_table : tabulate (λ a. bit_and a 0x7FF == a) 512 ≡ true
unfolding tabulate
ram_mask_table = refl

-- The addresses of the stack are their own offsets in the RAM.
ram_mask : (a : ℕ) → a < 512 → bit_and a 0x7FF ≡ a
ram_mask a h =
    let t = tabulate_at (λ a. bit_and a 0x7FF == a) a 512 h ram_mask_table in ground arith

low_byte_table : tabulate (λ w. bit_and w 0xFF == w % 256) 65536 ≡ true
unfolding tabulate
low_byte_table = refl

pub low_byte : (w : ℕ) → w < 65536 → bit_and w 0xFF ≡ w % 256
low_byte w h =
    let t = tabulate_at (λ w. bit_and w 0xFF == w % 256) w 65536 h low_byte_table in ground arith

memory_readb_ram : (a : ℕ) (s : Nes) → a < 512 → memory_readb a s ≡ (s.cpu_ram a, s)
unfolding memory_readb cpu_ram_read
memory_readb_ram a s h =
    let e : a / 0x2000 ≡ 0 = omega arith in
    rw (e, ram_mask a h) (ap (λ i. (s.cpu_ram i, s)) (ram_mask a h))

memory_writeb_ram :
    (a v : ℕ) (s : Nes) → a < 512 → memory_writeb a v s ≡ record s { cpu_ram = store s.cpu_ram a v }
unfolding memory_writeb cpu_ram_write
memory_writeb_ram a v s h =
    let e : a / 0x2000 ≡ 0 = omega arith in
    let ne : (a == 0x4014) ≡ false = ground arith in
    rw (ne, e, ram_mask a h) (ap (λ i. record s { cpu_ram = store s.cpu_ram i v }) (ram_mask a h))

-- The machine with `word` at `a` and behind it.
abbrev pub with_word : ℕ → ℕ → Nes → Nes
with_word a word s = record s {
  cpu_ram = store (store s.cpu_ram a (word % 256)) (a + 1) (word / 256);
}

memory_writew_ram :
    (a word : ℕ) (s : Nes) → a < 511 → word < 65536 → memory_writew a word s ≡ with_word a word s
unfolding memory_writew
memory_writew_ram a word s h hw =
    let e : (a + 1) % 2 ^ 16 ≡ a + 1 = omega arith in
    rw (e, low_byte word hw, memory_writeb_ram a (word % 256) s (omega arith))
      (memory_writeb_ram (a + 1) (word / 256) _ (omega arith))

memory_readw_ram :
    (a : ℕ) (s : Nes)
    → a < 511
    → memory_readw a s ≡ ((s.cpu_ram a + s.cpu_ram (a + 1) * 256) % 2 ^ 16, s)
unfolding memory_readw
memory_readw_ram a s h =
    let e : (a + 1) % 2 ^ 16 ≡ a + 1 = omega arith in
    rw (e, memory_readb_ram a s (omega arith), memory_readb_ram (a + 1) s (omega arith)) refl

pushw_ram :
    (word : ℕ) (s : Nes)
    → s.cpu.sp < 256
    → word < 65536
    → cpu_stack_pushw word s ≡ set_sp ((s.cpu.sp + 254) % 256) (with_word (0xFF + s.cpu.sp) word s)
unfolding cpu_stack_pushw
pushw_ram word s h hw = rw (memory_writew_ram (0xFF + s.cpu.sp) word s (omega arith) hw) refl

popw_ram :
    (s : Nes)
    → (s.cpu.sp + 2) % 256 < 256
    → cpu_stack_popw s ≡ (
      (s.cpu_ram (0xFF + (s.cpu.sp + 2) % 256) + s.cpu_ram (0xFF + (s.cpu.sp + 2) % 256 + 1) * 256)
          % 2 ^ 16,
      set_sp ((s.cpu.sp + 2) % 256) s,
    )
unfolding cpu_stack_popw
popw_ram s h =
    memory_readw_ram (0xFF + (s.cpu.sp + 2) % 256) (set_sp ((s.cpu.sp + 2) % 256) s) (omega arith)

word_back :
    (ram : ℕ → ℕ) (a word : ℕ)
    → word < 65536
    → (store (store ram a (word % 256)) (a + 1) (word / 256) a
          + store (store ram a (word % 256)) (a + 1) (word / 256) (a + 1) * 256)
        % 2 ^ 16
      ≡ word
word_back ram a word h = ground arith

-- A word that is pushed comes back when it is popped, with the stack pointer as it was, at every
-- value of the stack pointer; only its two bytes of the RAM have changed.
pub popw-pushw :
    (word : ℕ) (s : Nes)
    → s.cpu.sp < 256
    → word < 65536
    → cpu_stack_popw (cpu_stack_pushw word s) ≡ (word, with_word (0xFF + s.cpu.sp) word s)
popw-pushw word s h hw =
    let back : ((s.cpu.sp + 254) % 256 + 2) % 256 ≡ s.cpu.sp = omega arith in
    ap cpu_stack_popw (pushw_ram word s h hw)
    ∙ popw_ram (set_sp ((s.cpu.sp + 254) % 256) (with_word (0xFF + s.cpu.sp) word s)) (omega arith)
    ∙ rw back (
        ap (λ n. (n, with_word (0xFF + s.cpu.sp) word s))
          (word_back s.cpu_ram (0xFF + s.cpu.sp) word hw))

-- With a byte for SP and a word for PC, a call returns to the instruction behind it: `rts` right
-- after `jsr` restores every register, and of the whole machine only the two bytes of the return
-- address on the stack have changed.
pub rts-jsr :
    (s : Nes)
    → s.cpu.sp < 256
    → s.cpu.pc < 65536
    → rts (jsr s) ≡ with_word (0xFF + s.cpu.sp) ((s.cpu.pc + 65535) % 2 ^ 16) s
unfolding jsr rts
rts-jsr s h hp =
    let r = (s.cpu.pc + 65535) % 2 ^ 16 in
    let back : ((s.cpu.sp + 254) % 256 + 2) % 256 ≡ s.cpu.sp = omega arith in
    let called = set_sp ((s.cpu.sp + 254) % 256) (with_word (0xFF + s.cpu.sp) r s) in
    rw (pushw_ram r s h (omega arith), popw_ram (set_pc s.op_address called) (omega arith), back)
      (ap (λ n. set_pc (n + 1) (with_word (0xFF + s.cpu.sp) r s))
          (word_back s.cpu_ram (0xFF + s.cpu.sp) r (omega arith))
        ∙ ap (λ n. with_word (0xFF + s.cpu.sp) r (record s { cpu = record s.cpu { pc = n } }))
            (omega arith))
