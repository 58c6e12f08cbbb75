-- ===== src/Kernels/Cte.antt =====
-- Interrupts of the core: __am_irq_handle() and kcontext() of
-- abstract-machine/am/src/riscv/core/cte.c for 32 registers. A `Context *` is its address; contexts
-- at different addresses do not overlap.
use ic_competition.Base.{ℕ, ◌+◌, ◌-◌, ◌%◌, ◌^◌, ◌==◌, if◌then◌else◌, Option, none, some}

pub record Context : Type 0 where
  pub gpr : ℕ → ℕ
  pub mcause : ℕ
  pub mstatus : ℕ
  pub mepc : ℕ

abbrev pub Contexts : Type 0
Contexts = ℕ → Context

abbrev pub put_context : ℕ → Context → Contexts → Contexts
put_context c context contexts a = if a == c then context else contexts a

-- The events that the core raises.
pub data Event : Type 0 where
  event_yield : Event
  event_error : Event

-- `ecall` is the cause 0xb; the thread goes on behind it.
abbrev pub step_over : Context → Context
step_over r = if r.mcause == 0xb then (record r { mepc = (r.mepc + 4) % 2 ^ 32 }) else r

abbrev pub event_of : Context → Event
event_of r = if r.mcause == 0xb then event_yield else event_error

abbrev pub Handler : Type 0 → Type 0
Handler S = Event → ℕ → S → ℕ × S

module _ {S : Type 0} where
  -- `assert(c != NULL)`
  abbrev pub assert_context : ℕ × S → Contexts → Option (ℕ × Contexts × S)
  assert_context p contexts = if p.0 == 0 then none else some (p.0, contexts, p.1)

  -- The context that is restored, or `none` where the assertion fails.
  unfoldable pub irq_handle : Option (Handler S) → ℕ → Contexts → S → Option (ℕ × Contexts × S)
  irq_handle none c contexts s = some (c, contexts, s)
  irq_handle (some user_handler) c contexts s =
      let contexts1 = put_context c (step_over (contexts c)) contexts in
      assert_context (user_handler (event_of (contexts c)) c s) contexts1

-- `kstack.end - sizeof(Context)`: 36 words of four bytes
abbrev pub context_at : ℕ → ℕ
context_at kend = (kend + 2 ^ 32 - 144) % 2 ^ 32

abbrev pub kcontext : ℕ → ℕ → ℕ → Contexts → ℕ × Contexts
kcontext kend entry arg contexts =
    let cp = context_at kend in
    let r = contexts cp in
    let made = record r {
      mepc = entry;
      gpr = λ i. if i == 10 then arg else r.gpr i;
      mstatus = 0x1800;
    } in
    (cp, put_context cp made contexts)
