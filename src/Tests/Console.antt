-- ===== src/Tests/Console.antt =====
-- Runs of the emulator's processor on a concrete machine.
use ic_competition.Base.{
  ◌+◌, ◌-◌, ◌/◌, ◌%◌, ◌^◌, ◌≡◌, true, false, not, arith, ◌==◌, ltb, if◌then◌else◌, get_or, [], ◌∷◌,
}
use ic_competition.Nes.State.{Nes}
use ic_competition.Nes.Memory.{memory_readb, memory_writeb}
use ic_competition.Nes.Mirror.{memory_readb-memory_writeb}
use ic_competition.Nes.Flags.{flag, carry_bp}
use ic_competition.Nes.Alu.{adc, sbc, bit_of}
use ic_competition.Nes.Ops.{jsr, rts}
use ic_competition.Nes.Carry.{Computed, sum_overflows, adc-Computed}
use ic_competition.Nes.Borrow.{difference_overflows, sbc-Computed}
use ic_competition.Nes.Stack.{with_word, rts-jsr}
use ic_competition.Nes.Run.{cpu_run}
use ic_competition.Nes.Run.Returns.{Ran, cpu_run-Ran}

-- At PC stands 0x02, which has no row, and behind it `ADC #$51`.
abbrev console : Nes
console = record {
  cpu = record { pc = 0x10; sp = 0; a = 0x50; x = 3; y = 4; p = 0x25 };
  cpu_ram = λ i. get_or (0x02 ∷ 0x69 ∷ 0x51 ∷ []) (i - 0x10) 0xEA;
  op_value = 0x51;
  op_address = 0x1234;
  op_cycles = 0;
  ppu = record {
    ppuctrl = 0;
    ppumask = 0;
    ppustatus = 0xA0;
    oamaddr = 0;
    ppuscroll = 0;
    ppuscroll_x = 0;
    ppuscroll_y = 0;
    ppuaddr = 0;
    ppudata = 0;
    scroll_received_x = false;
    addr_received_high_byte = false;
    ready = true;
    mirroring = 0;
    mirroring_xor = 0x400;
    first_read = true;
    addr_latch = 0;
    latch = 0;
    sprram = λ i. 0;
    ppu_ram = λ i. 0;
  };
  psg = record { strobe = 10; key_state = λ i. 0; prev_write = 0 };
  mmc_id = 0;
  chr_pages = λ i. 0;
  memory = λ i. 0x02;
}

cpu_run-Ran_example : Ran (9 / 3) console (cpu_run 300000 9 console)
cpu_run-Ran_example = cpu_run-Ran 300000 9 console (omega arith)

adc-Computed_example :
    Computed
      (adc console)
      ((0x50 + 0x51 + bit_of (flag carry_bp console)) % 256)
      (ltb 255 (0x50 + 0x51 + bit_of (flag carry_bp console)))
      (sum_overflows 0x50 0x51 (bit_of (flag carry_bp console)))
adc-Computed_example = adc-Computed console (omega arith) (omega arith) (omega arith)

sbc-Computed_example :
    Computed
      (sbc console)
      ((0x50 + 256 - 0x51 - bit_of (not (flag carry_bp console))) % 256)
      (not (ltb 0x50 (0x51 + bit_of (not (flag carry_bp console)))))
      (difference_overflows 0x50 0x51 (bit_of (not (flag carry_bp console))))
sbc-Computed_example = sbc-Computed console (omega arith) (omega arith) (omega arith)

rts-jsr_example : rts (jsr console) ≡ with_word (0xFF + 0) ((0x10 + 65535) % 2 ^ 16) console
rts-jsr_example = rts-jsr console (omega arith) (omega arith)

mirror_example :
    (memory_readb 0x1810 (memory_writeb 0x10 7 console)).0
    ≡ (if 0x10 % 0x800 == 0x1810 % 0x800 then 7 else (memory_readb 0x1810 console).0)
mirror_example = memory_readb-memory_writeb 0x10 0x1810 7 console (omega arith) (omega arith)
