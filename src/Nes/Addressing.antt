-- ===== src/Nes/Addressing.antt =====
-- cpu-addressing.c: each addressing mode sets `op_address` and `op_value` and moves PC behind the
-- operand. `op_address` is an `int`, here its 32-bit pattern; an address parameter keeps 16 bits.
use ic_competition.Base.{ℕ, ◌+◌, ◌-◌, ◌*◌, ◌/◌, ◌%◌, ◌^◌, not, ◌==◌, if◌then◌else◌, bit_and, bit_or}
use ic_competition.Nes.State.{Nes}
use ic_competition.Nes.Memory.{memory_readb, memory_readw}

-- `cpu.PC += n`
abbrev pub advance : ℕ → Nes → Nes
advance n s = record s { cpu = record s.cpu { pc = (s.cpu.pc + n) % 2 ^ 16 } }

-- `op_address = …; op_value = memory_readb(op_address);`
abbrev pub fetch : ℕ → Nes → Nes
fetch address s =
    let (v, s1) = memory_readb (address % 2 ^ 16) s in
    record s1 { op_address = address; op_value = v }

-- `if ((op_address >> 8) != (cpu.PC >> 8)) op_cycles++;`
abbrev pub count_page : Nes → Nes
count_page s =
    if not (s.op_address / 256 == s.cpu.pc / 256)
    then record s { op_cycles = s.op_cycles + 1 }
    else s

-- `op_address = …; op_value = CPU_RAM[op_address];`
abbrev pub fetch_ram : ℕ → Nes → Nes
fetch_ram address s = record s { op_address = address; op_value = s.cpu_ram address }

unfoldable pub cpu_address_implied : Nes → Nes
cpu_address_implied s = s

unfoldable pub cpu_address_immediate : Nes → Nes
cpu_address_immediate s =
    let (v, s1) = memory_readb s.cpu.pc s in advance 1 (record s1 { op_value = v })

unfoldable pub cpu_address_zero_page : Nes → Nes
cpu_address_zero_page s = let (b, s1) = memory_readb s.cpu.pc s in advance 1 (fetch_ram b s1)

unfoldable pub cpu_address_zero_page_x : Nes → Nes
cpu_address_zero_page_x s =
    let (b, s1) = memory_readb s.cpu.pc s in advance 1 (fetch_ram (bit_and (b + s1.cpu.x) 0xFF) s1)

unfoldable pub cpu_address_zero_page_y : Nes → Nes
cpu_address_zero_page_y s =
    let (b, s1) = memory_readb s.cpu.pc s in advance 1 (fetch_ram (bit_and (b + s1.cpu.y) 0xFF) s1)

unfoldable pub cpu_address_absolute : Nes → Nes
cpu_address_absolute s = let (w, s1) = memory_readw s.cpu.pc s in advance 2 (fetch w s1)

unfoldable pub cpu_address_absolute_x : Nes → Nes
cpu_address_absolute_x s =
    let (w, s1) = memory_readw s.cpu.pc s in count_page (advance 2 (fetch (w + s1.cpu.x) s1))

unfoldable pub cpu_address_absolute_y : Nes → Nes
cpu_address_absolute_y s =
    let (w, s1) = memory_readw s.cpu.pc s in
    count_page (advance 2 (fetch (bit_and (w + s1.cpu.y) 0xFFFF) s1))

-- `b` is the operand and `pc` the address behind it.
abbrev pub branch_target : ℕ → ℕ → ℕ
branch_target b pc = ((if bit_and b 0x80 == 0 then b else b + 2 ^ 32 - 0x100) + pc) % 2 ^ 32

unfoldable pub cpu_address_relative : Nes → Nes
cpu_address_relative s =
    let (b, s1) = memory_readb s.cpu.pc s in
    let s2 = advance 1 s1 in count_page (record s2 { op_address = branch_target b s2.cpu.pc })

-- The pointer at the end of a page takes its high byte from the start of the page.
abbrev page_wrap : ℕ → Nes → ℕ × Nes
page_wrap address s =
    let (high, s1) = memory_readb (bit_and address 0xFF00) s in
    let (low, s2) = memory_readb address s1 in (high * 256 + low, s2)

unfoldable pub cpu_address_indirect : Nes → Nes
cpu_address_indirect s =
    let (arg, s1) = memory_readw s.cpu.pc s in
    let (target, s2) = if bit_and arg 0xFF == 0xFF then page_wrap arg s1 else memory_readw arg s1 in
    advance 2 (record s2 { op_address = target })

unfoldable pub cpu_address_indirect_x : Nes → Nes
cpu_address_indirect_x s =
    let (arg, s1) = memory_readb s.cpu.pc s in
    let (high, s2) = memory_readb (bit_and (arg + s1.cpu.x + 1) 0xFF) s1 in
    let (low, s3) = memory_readb (bit_and (arg + s1.cpu.x) 0xFF) s2 in
    advance 1 (fetch (bit_or (high * 256) low) s3)

unfoldable pub cpu_address_indirect_y : Nes → Nes
cpu_address_indirect_y s =
    let (arg, s1) = memory_readb s.cpu.pc s in
    let (high, s2) = memory_readb (bit_and (arg + 1) 0xFF) s1 in
    let (low, s3) = memory_readb arg s2 in
    count_page (advance 1 (fetch (bit_and (bit_or (high * 256) low + s3.cpu.y) 0xFFFF) s3))
