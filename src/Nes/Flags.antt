-- ===== src/Nes/Flags.antt =====
-- The flag macros, the stack and the interrupt vectors of cpu.c.
use ic_competition.Base.{
  ℕ, ◌+◌, ◌-◌, ◌/◌, ◌%◌, ◌^◌, Bool, ◌==◌, ltb, if◌then◌else◌, bit_and, bit_or,
}
use ic_competition.Nes.State.{Nes, Cpu, common_bit_set, common_modify_bitb}
use ic_competition.Nes.Memory.{memory_readb, memory_readw, memory_writeb, memory_writew}

-- The positions of the flags.
abbrev pub carry_bp : ℕ
carry_bp = 0

abbrev pub zero_bp : ℕ
zero_bp = 1

abbrev pub interrupt_bp : ℕ
interrupt_bp = 2

abbrev pub decimal_bp : ℕ
decimal_bp = 3

abbrev pub unused_bp : ℕ
unused_bp = 5

abbrev pub overflow_bp : ℕ
overflow_bp = 6

abbrev pub negative_bp : ℕ
negative_bp = 7

abbrev pub with_cpu : (Cpu → Cpu) → Nes → Nes
with_cpu f s = record s { cpu = f s.cpu }

unfoldable pub flag : ℕ → Nes → Bool
flag position s = common_bit_set s.cpu.p position

unfoldable pub set_flag : ℕ → Bool → Nes → Nes
set_flag position value = with_cpu (λ c. record c { p = common_modify_bitb c.p position value })

-- The table of 256 bytes: the zero flag at 0, nothing up to 127, and the negative flag from there on.
unfoldable pub cpu_zn_flag_table : ℕ → ℕ
cpu_zn_flag_table value = if value == 0 then 0x02 else if ltb value 128 then 0 else 0x80

unfoldable pub cpu_update_zn_flags : ℕ → Nes → Nes
cpu_update_zn_flags value =
    with_cpu (λ c. record c { p = bit_or (bit_and c.p (255 - 0x82)) (cpu_zn_flag_table value) })

abbrev pub set_a : ℕ → Nes → Nes
set_a v = with_cpu (λ c. record c { a = v })

abbrev pub set_x : ℕ → Nes → Nes
set_x v = with_cpu (λ c. record c { x = v })

abbrev pub set_y : ℕ → Nes → Nes
set_y v = with_cpu (λ c. record c { y = v })

abbrev pub set_sp : ℕ → Nes → Nes
set_sp v = with_cpu (λ c. record c { sp = v })

abbrev pub set_pc : ℕ → Nes → Nes
set_pc v = with_cpu (λ c. record c { pc = v % 2 ^ 16 })

abbrev pub set_p : ℕ → Nes → Nes
set_p v = with_cpu (λ c. record c { p = v })

unfoldable pub cpu_branch : Bool → Nes → Nes
cpu_branch b s = if b then set_pc s.op_address s else s

-- `result` is an `int`; its sign decides the carry and its bit 7 the negative flag.
unfoldable pub cpu_compare : ℕ → Nes → Nes
cpu_compare reg s =
    let result = (reg + 2 ^ 32 - s.op_value) % 2 ^ 32 in
    set_flag negative_bp (bit_and (result / 128) 1 == 1)
      (set_flag zero_bp (result == 0) (set_flag carry_bp (ltb result (2 ^ 31)) s))

unfoldable pub cpu_stack_pushb : ℕ → Nes → Nes
cpu_stack_pushb byte s = memory_writeb (0x100 + s.cpu.sp) byte (set_sp ((s.cpu.sp + 255) % 256) s)

unfoldable pub cpu_stack_pushw : ℕ → Nes → Nes
cpu_stack_pushw word s =
    let s1 = memory_writew (0xFF + s.cpu.sp) word s in set_sp ((s1.cpu.sp + 254) % 256) s1

unfoldable pub cpu_stack_popb : Nes → ℕ × Nes
cpu_stack_popb s = let s1 = set_sp ((s.cpu.sp + 1) % 256) s in memory_readb (0x100 + s1.cpu.sp) s1

unfoldable pub cpu_stack_popw : Nes → ℕ × Nes
cpu_stack_popw s = let s1 = set_sp ((s.cpu.sp + 2) % 256) s in memory_readw (0xFF + s1.cpu.sp) s1

unfoldable pub cpu_nmi_interrupt_address : Nes → ℕ × Nes
cpu_nmi_interrupt_address s = memory_readw 0xFFFA s

unfoldable pub cpu_reset_interrupt_address : Nes → ℕ × Nes
cpu_reset_interrupt_address s = memory_readw 0xFFFC s

unfoldable pub cpu_irq_interrupt_address : Nes → ℕ × Nes
cpu_irq_interrupt_address s = memory_readw 0xFFFE s
