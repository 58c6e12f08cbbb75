-- ===== src/Lib.antt =====
-- A model of the C and C++ code of a 32-bit RISC-V processor project: the C library that the programs on
-- the processor are linked with (abstract-machine/klib), the simulator around the circuit with its
-- debugger and its difference test (core/csrc), the NES emulator that runs on the processor
-- (am-kernels/kernels/litenes/src), the scheduler of a kernel with threads
-- (am-kernels/kernels/thread-os), the context switch of the core, games, demonstrations of
-- am-kernels/kernels/demo and programs of am-kernels/tests/cpu-tests/tests.
--
-- Klib is the library. Klib.Memory has the byte memory and its strings; Klib.Str the functions of
-- klib/src/string.c under their C names, each a function from a memory to a memory or a result;
-- Klib.Stdlib those of klib/src/stdlib.c, where the static variables `next` and `addr` are arguments
-- and results; Klib.Stdio vsprintf and sprintf of klib/src/stdio.c over lists of characters.
--
-- Sdb is the debugger. Sdb.Expr.Token has the token array of expr.c, Sdb.Expr.Lexer make_token(),
-- Sdb.Expr.Eval check_parentheses(), find_main_op() and eval(), and Sdb.Expr joins them as expr().
-- Sdb.Expr.Grammar says what the expressions mean: it is the specification of eval().
-- Sdb.Expr.Lexer.Patterns has the regular expressions of rules[] and what they match,
-- Sdb.Expr.Lexer.Lexemes the texts that are tokens, Sdb.Expr.Prefix the tokens before the pass over
-- prefix operators, and Sdb.Expr.Meaning follows expr() from the text to the value. Sdb.Watchpoint
-- has the pool of watchpoint.c; scan_wp_diff() and new_wp() call expr(), which is a parameter there, as
-- pmem_read() and reg_str2val() are in Sdb.Expr; Sim.Evaluate fills them.
--
-- Nes is the emulator. Nes.State has the static variables of its files as one record, Nes.Ppu the
-- registers of ppu.c, Nes.Memory memory.c with mmc.c and psg.c, Nes.Addressing cpu-addressing.c, and
-- Nes.Flags, Nes.Alu, Nes.Ops, Nes.Table and Nes.Run cpu.c: an instruction cpu_op_x is `x`, a function
-- from machine to machine. The loader, the drawing and the keyboard are left out.
--
-- Sim is the simulator of core/csrc. Sim.Memory has memory.cpp and device/mmio.cpp, where a panic is
-- `none`; Sim.Circuit the state and one clock cycle of cpu/cpu-exec.cpp, with cpu/riscv_api.cpp and
-- utils/state.cpp; Sim.Exec the rest of cpu-exec.cpp up to cpu_exec(), which joins the memory, Difftest
-- and the watchpoints of Sdb; Sim.Ftrace monitor/sdb/ftrace.cpp. Sim.Commands has the commands of
-- monitor/sdb/sdb.cpp over a list of lines, with what the handlers print as data, and Sim.Evaluate cpu/reg.cpp
-- with the evaluator of Sdb.Expr in a state of the simulator. The function trace is modelled by itself,
-- since exec_once() leaves the field that it reads unset. The circuit is generated from Verilog:
-- its cycle is a parameter that says which calls it makes, in their order and with the answers it gets.
-- An instruction has at most 40 cycles, as in exec_one_inst(). A watchpoint's expression is evaluated in the
-- state between two instructions, and is taken to read no device: Sim.Evaluate is the evaluator of a simulator
-- built without them. The clock of the host is a function of
-- the number of the cycle.
--
-- Difftest is core/csrc/cpu/difftest/dut.c, which runs a reference beside the circuit; the reference
-- is a parameter, with one law where a theorem needs it: it holds the registers copied to it.
--
-- Kernels.ThreadOs is on_interrupt() and the loop of main() of thread-os.c: a task is its place in
-- the array, a context its address, and an interrupt a step of the state that all CPUs share.
-- Kernels.Cte is __am_irq_handle() and kcontext() of abstract-machine/am/src/riscv/core/cte.c, and
-- Kernels.YieldOs the scheduler of am-kernels/kernels/yield-os that they call, with __am_asm_trap of
-- riscv/core/trap.S, which stores the registers and loads those of the context that is returned. Contexts at different
-- addresses are taken not to overlap. Kernels.Snake is a round of the game of am-kernels/kernels/snake,
-- without its drawing and its clock, and Kernels.Typing the letters of am-kernels/kernels/typing-game,
-- where screen_w, screen_h and the results of rand() are arguments. Programs
-- has the sorts of bubble-sort.c and select-sort.c over arrays of integers, for any length, and the
-- checksum of crc32.c with its table, beside the shift register that the table stands for; the towers
-- of am-kernels/kernels/demo/src/hanoi, beside the rules of the puzzle, where the places of a tower are
-- not bounded, and evolve() of am-kernels/kernels/demo/src/life, without what they draw.
--
-- Numbers are bit patterns: an `int` or `uint32_t` is a number below 2 ^ 32, and what wraps says so;
-- the sorts and the letters of the typing game have integers, whose values they do not let overflow.
-- A loop that ends at a NUL, at the end of a list or in a recursion runs on fuel. The theorems ask for
-- more fuel than the string has characters, than the pool has nodes, or as much as the expression has
-- tokens, and then state that the code returns. expr() gives eval() one more than the tokens. cpu_run()
-- has 65537 rounds of fuel for each cycle and 65537 besides: an op code without a row takes no cycle, and at most 65536
-- of them follow one another. The loop of on_interrupt() has as many rounds as there are tasks. make_token() of expr.c does not check the
-- bound of tokens[65536]: more tokens are an overrun, which is no value. In the
-- simulator the walks along the watchpoints have 33 rounds, one more than there are nodes.
--
-- Parameters stand for code outside: the host's regexec, strtoul, atoi and sprintf, and kcontext() of the
-- kernel's machine. Where a theorem needs it, regexec finds the longest match at the start of the text. Not modelled: printing, the lines of
-- executed instructions that g_print_step turns on included, logging, the start of the simulator, its wave trace, the circuit, the other kernels, demonstrations and tests, and vendored tools.
pub mod Base
pub mod Klib
pub mod Sdb
pub mod Nes
pub mod Difftest
pub mod Sim
pub mod Kernels
pub mod Programs
mod Tests
