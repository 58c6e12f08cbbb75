-- ===== src/Kernels/YieldOs.antt =====
-- The kernel yield-os.c, whose two threads leave and enter by yield(), and __am_asm_trap of
-- abstract-machine/am/src/riscv/core/trap.S for 32 registers.
pub mod Alternate
pub mod Switch
use ic_competition.Base.{
  ℕ, ◌+◌, ◌-◌, ◌%◌, ◌^◌, ◌==◌, ◌||◌, if◌then◌else◌, Bool, true, false, List, [], ◌∷◌, Option, none,
  some,
}
use ic_competition.Kernels.Cte.{Context, Contexts, Event, put_context, irq_handle, kcontext}

-- `&pcb[0]`, `&pcb[1]` and `&pcb_boot`
pub data Pcb : Type 0 where
  pcb_0 : Pcb
  pcb_1 : Pcb
  pcb_boot : Pcb

pub record Statics : Type 0 where
  pub cp_0 : ℕ
  pub cp_1 : ℕ
  pub cp_boot : ℕ
  pub current : Pcb

unfoldable pub cp : Pcb → Statics → ℕ
cp pcb_0 s = s.cp_0
cp pcb_1 s = s.cp_1
cp pcb_boot s = s.cp_boot

unfoldable pub set_cp : Pcb → ℕ → Statics → Statics
set_cp pcb_0 c s = record s { cp_0 = c }
set_cp pcb_1 c s = record s { cp_1 = c }
set_cp pcb_boot c s = record s { cp_boot = c }

-- `current == &pcb[0] ? &pcb[1] : &pcb[0]`
unfoldable pub other : Pcb → Pcb
other pcb_0 = pcb_1
other pcb_1 = pcb_0
other pcb_boot = pcb_0

unfoldable pub schedule : Event → ℕ → Statics → ℕ × Statics
unfolding set_cp cp other
schedule ev prev s =
    let s1 = set_cp s.current prev s in
    let s2 = record s1 { current = other s.current } in (cp s2.current s2, s2)

-- The contexts in memory and the kernel's variables.
abbrev pub System : Type 0
System = Contexts × Statics

-- What main leaves for its yield(); `f` is the address of the threads' function.
abbrev pub main_threads : ℕ → ℕ → ℕ → System → System
main_threads end_0 end_1 f s =
    let (c_0, contexts_0) = kcontext end_0 f 1 s.0 in
    let (c_1, contexts_1) = kcontext end_1 f 2 contexts_0 in
    (contexts_1, record s.1 { cp_0 = c_0; cp_1 = c_1; current = pcb_boot })

-- A processor that runs a thread with these registers, and the rest of the system.
pub record Running : Type 0 where
  pub registers : Context
  pub system : System

-- `addi sp, sp, -CONTEXT_SIZE`
abbrev pub frame : Context → ℕ
frame r = (r.gpr 2 + 2 ^ 32 - 144) % 2 ^ 32

-- What `MAP(REGS, PUSH)` and the stores of mcause, mstatus and mepc make of the memory under the
-- stack pointer: the places of x0 and x2 are not written.
abbrev pub pushed : Context → Context → Context
pushed r old = record r { gpr = λ i. if i == 0 || i == 2 then old.gpr i else r.gpr i }

-- The registers that are restored from the context at `c`: mstatus, mepc and what `MAP(REGS, POP)`
-- loads; the stack pointer ends behind the context, x0 is always 0, and mcause is not written.
abbrev pub popped : ℕ → Context → Context → Context
popped c r context = record r {
  gpr = λ i. if i == 0 then 0 else if i == 2 then (c + 144) % 2 ^ 32 else context.gpr i;
  mstatus = context.mstatus;
  mepc = context.mepc;
}

-- `mv sp, a0`: the context whose address __am_irq_handle() returns.
unfoldable pub restored : Context → Option (ℕ × Contexts × Statics) → Option Running
restored r none = none
restored r (some x) = some (record { registers = popped x.0 r (x.1 x.0); system = (x.1, x.2) })

-- A trap of the thread that runs with the registers `r`; `mret` goes on at mepc.
unfoldable pub trap : Context → System → Option Running
trap r s = restored r (
    irq_handle (some schedule) (frame r) (put_context (frame r) (pushed r (s.0 (frame r))) s.0) s.1)

unfoldable pub then_run : (Running → Option Running) → Option Running → Option Running
then_run rest none = none
then_run rest (some s) = rest s

-- Traps one after the other, with the registers that each running thread has come to; between them no
-- thread writes to a stored context.
unfoldable pub traps : List Context → Running → Option Running
traps [] s = some s
traps (r ∷ rs) s = then_run (traps rs) (trap r s.system)
