-- ===== src/Nes/Run.antt =====
-- cpu_init, cpu_reset, cpu_interrupt and cpu_run of cpu.c.
pub mod Returns
use ic_competition.Base.{
  ℕ, zero, suc, ◌+◌, ◌-◌, ◌/◌, ◌%◌, ◌^◌, Bool, false, Option, none, some, ◌==◌, ltb, leb,
  if◌then◌else◌, bit_or,
}
use ic_competition.Nes.State.{Nes, Cpu}
use ic_competition.Nes.Ppu.{ppu_generates_nmi}
use ic_competition.Nes.Memory.{memory_readb}
use ic_competition.Nes.Flags.{
  interrupt_bp, unused_bp, set_flag, set_p, set_pc, set_sp, cpu_stack_pushb, cpu_stack_pushw,
  cpu_reset_interrupt_address, cpu_nmi_interrupt_address,
}
use ic_competition.Nes.Addressing.{advance}
use ic_competition.Nes.Table.{op_table, find_row}
use ic_competition.Nes.Table.Kinds.{Row, row, handle, address}

-- What cpu_init() leaves in the registers; the table is `op_table`.
unfoldable pub cpu_init : Nes → Nes
cpu_init s = record s { cpu = record s.cpu { p = 0x24; sp = 0; a = 0; x = 0; y = 0 } }

unfoldable pub cpu_reset : Nes → Nes
cpu_reset s =
    let (w, s1) = cpu_reset_interrupt_address s in
    let s2 = set_sp ((s1.cpu.sp + 253) % 256) (set_pc w s1) in set_p (bit_or s2.cpu.p 0x04) s2

unfoldable pub cpu_interrupt : Nes → Nes
cpu_interrupt s =
    if ppu_generates_nmi s.ppu
    then (let s1 = set_flag unused_bp false (set_p (bit_or s.cpu.p 0x04) s) in
        let s2 = cpu_stack_pushw s1.cpu.pc s1 in
        let s3 = cpu_stack_pushb s2.cpu.p s2 in
        let (w, s4) = cpu_nmi_interrupt_address s3 in set_pc w s4)
    else s

-- The cycles of the op code; the entry of an op code without a row is 0.
abbrev pub cycles_of : Option Row → ℕ
cycles_of none = 0
cycles_of (some (row c n o m)) = n

abbrev pub execute : Option Row → Nes → Nes
execute none s = s
execute (some (row c n o m)) s = handle o (address m s)

-- One round of the loop: the cycles that it takes and the machine after it.
unfoldable pub cpu_step : Nes → ℕ × Nes
cpu_step s =
    let (code, s1) = memory_readb s.cpu.pc s in
    let r = find_row code op_table in
    let s2 = execute r (advance 1 s1) in (cycles_of r + s2.op_cycles, record s2 { op_cycles = 0 })

-- `while (cycles > 0)`; a count that is used up stops at 0. `none` is an exhausted fuel.
unfoldable pub cpu_loop : ℕ → ℕ → Nes → Option Nes
cpu_loop zero cycles s = none
cpu_loop (suc fuel) zero s = some s
cpu_loop (suc fuel) (suc cycles) s = cpu_loop fuel (suc cycles - (cpu_step s).0) (cpu_step s).1

unfoldable pub cpu_run : ℕ → ℕ → Nes → Option Nes
cpu_run fuel cycles s = cpu_loop fuel (cycles / 3) s
