-- ===== src/Kernels/YieldOs/Alternate.antt =====
-- The two threads of yield-os.c run in turn.
use ic_competition.Base.{
  ℕ, zero, suc, ◌+◌, ◌<◌, ◌≡◌, ◌≢◌, refl, sym, ap, ◌∙◌, ◌%◌, ◌^◌, ◌==◌, Bool-cases, true, false,
  List, [], ◌∷◌, ◌++◌, Option, some, arith, inl, inr, Option-cases, length, subst,
}
use mathlib.Core.Option.{some-injective, none-ne-some}
use ic_competition.Kernels.Cte.{context_at, Context}
use ic_competition.Kernels.YieldOs.{
  Pcb, pcb_0, pcb_1, pcb_boot, cp, other, System, main_threads, trap, then_run, traps, Running,
  frame, pushed, popped,
}
use ic_competition.Kernels.YieldOs.Switch.{IsReady, trap-IsSwitched}

other_twice : (p : Pcb) → other (other (other p)) ≡ other p
unfolding other
other_twice pcb_0 = refl
other_twice pcb_1 = refl
other_twice pcb_boot = refl

-- Every trap stores its registers at an address that is not NULL, and was made by yield().
unfoldable pub AreYields : List Context → Type 0
AreYields [] = Unit
AreYields (r ∷ rs) = (frame r ≢ 0) × (r.mcause ≡ 0xb) × AreYields rs

-- Which thread runs after `n` traps, from `p` on.
unfoldable pub turn : ℕ → Pcb → Pcb
turn zero p = p
turn (suc n) p = turn n (other p)

-- The traps ended in a state in which both threads are ready.
record IsRun (n : ℕ) (p : Pcb) (result : Option Running) : Type 0 where
  state : Running
  ends : result ≡ some state
  ready : IsReady state.system
  current : state.system.1.current ≡ turn n p

traps-IsRun :
    (rs : List Context) (s : Running)
    → AreYields rs
    → IsReady s.system
    → IsRun (length rs) s.system.1.current (traps rs s)
unfolding traps then_run AreYields turn
traps-IsRun [] s y ready = record { state = s; ends = refl; ready = ready; current = refl }
traps-IsRun (r ∷ rs) s y ready =
    let one = trap-IsSwitched r s.system.0 s.system.1 y.0 ready in
    let rest = traps-IsRun rs one.after y.2 one.ready in
    rw one.runs (record {
      state = rest.state;
      ends = rest.ends;
      ready = rest.ready;
      current = rest.current ∙ ap (turn (length rs)) one.current;
    })

traps-append :
    (rs ds : List Context) (s s1 : Running)
    → traps rs s ≡ some s1
    → traps (rs ++ ds) s ≡ traps ds s1
unfolding traps then_run
traps-append [] ds s s1 e = ap (traps ds) (some-injective s s1 e)
traps-append (r ∷ rs) ds s s1 e = elim (Option-cases (trap r s.system)) [
  | inl stuck ↦ absurd (none-ne-some s1 (sym (ap (then_run (traps rs)) stuck) ∙ e))
  | inr one ↦ rw one.1 (traps-append rs ds one.0 s1 (sym (ap (then_run (traps rs)) one.1) ∙ e))
]

-- The thread `p` that trapped with the registers `e` runs again, behind its `ecall`, and with all the
-- registers that it had, its stack pointer included.
pub record IsResumed (p : Pcb) (e : Context) (result : Option Running) : Type 0 where
  pub state : Running
  pub ends : result ≡ some state
  pub current : state.system.1.current ≡ p
  pub pc : state.registers.mepc ≡ (e.mepc + 4) % 2 ^ 32
  pub status : state.registers.mstatus ≡ e.mstatus
  pub zero_register : state.registers.gpr 0 ≡ 0
  pub general : (i : ℕ) → i ≢ 0 → state.registers.gpr i ≡ e.gpr i

-- A register that was pushed and popped.
popped-pushed :
    (e d old : Context) (pc i : ℕ)
    → e.gpr 2 < 2 ^ 32
    → i ≢ 0
    → (popped (frame e) d (record (pushed e old) { mepc = pc })).gpr i ≡ e.gpr i
popped-pushed e d old pc i small ne =
    let ne0 : (i == 0) ≡ false = ground arith in
    elim (Bool-cases (i == 2)) [
      | inl two ↦
          let same : 2 ≡ i = ground arith in
          rw (ne0, two) (subst (λ k. (frame e + 144) % 2 ^ 32 ≡ e.gpr k) same (omega arith))
      | inr ne2 ↦ rw (ne0, ne2) refl
    ]

IsResumed-after :
    (e d : Context) (s : Running) (q : Pcb)
    → IsReady s.system
    → s.system.1.current ≡ other q
    → e.mcause ≡ 0xb
    → e.gpr 2 < 2 ^ 32
    → frame e ≢ 0
    → frame d ≢ 0
    → frame e ≢ frame d
    → IsResumed s.system.1.current e (traps (e ∷ d ∷ []) s)
unfolding traps then_run
IsResumed-after e d s q ready on yields small ne_e ne_d apart =
    let one = trap-IsSwitched e s.system.0 s.system.1 ne_e ready in
    let mid = one.after.system in
    let two = trap-IsSwitched d mid.0 mid.1 ne_d one.ready in
    let is_yield : (e.mcause == 0xb) ≡ true = ground arith in
    let back : other mid.1.current ≡ s.system.1.current =
      ap other one.current ∙ ap (λ p. other (other p)) on ∙ other_twice q ∙ sym on in
    let pointer : cp (other mid.1.current) mid.1 ≡ frame e =
      ap (λ p. cp p mid.1) back ∙ one.saved in
    let saved = pushed e (s.system.0 (frame e)) in
    let behind = (e.mepc + 4) % 2 ^ 32 in
    let context : two.after.system.0 (frame e) ≡ record saved { mepc = behind } =
      two.elsewhere (frame e) apart ∙ one.stored ∙ rw is_yield refl in
    let registers : two.after.registers ≡ popped (frame e) d (record saved { mepc = behind }) =
      two.loaded
      ∙ ap (λ a. popped a d (two.after.system.0 a)) pointer
      ∙ ap (popped (frame e) d) context in
    rw (one.runs, two.runs)
      (record {
        state = two.after;
        ends = refl;
        current = two.current ∙ back;
        pc = ap (λ r. r.mepc) registers;
        status = ap (λ r. r.mstatus) registers;
        zero_register = ap (λ r. r.gpr 0) registers;
        general = λ i ne.
            ap (λ r. r.gpr i) registers
            ∙ popped-pushed e d (s.system.0 (frame e)) behind i small ne;
      })

turn-other : (n : ℕ) (p : Pcb) → turn (suc n) p ≡ other (turn n p)
unfolding turn
turn-other zero p = refl
turn-other (suc n) p = turn-other n (other p)

-- Where the two stacks hold a context at an address that is not NULL: from the state that main
-- leaves, after any traps that yield() makes, of which the first is main's own, a thread that
-- traps, with a stack pointer of 32 bits, is resumed by the next trap: the processor goes on behind
-- the thread's `ecall` with the mstatus and all the registers that it had, the stack pointer
-- included, provided that the other thread's stack pointer is another one; and the two threads take
-- turns, beginning with the first.
pub traps-IsResumed :
    (end_0 end_1 f : ℕ) (s : System) (d k : Context) (es : List Context) (e g : Context)
    → context_at end_0 ≢ 0
    → context_at end_1 ≢ 0
    → AreYields (d ∷ es)
    → AreYields (e ∷ g ∷ [])
    → e.gpr 2 < 2 ^ 32
    → frame e ≢ frame g
    → IsResumed (turn (length (d ∷ es)) pcb_boot) e (
        traps
          ((d ∷ es) ++ e ∷ g ∷ [])
          (record { registers = k; system = main_threads end_0 end_1 f s }))
unfolding AreYields
traps-IsResumed end_0 end_1 f s d k es e g ne_0 ne_1 before now small apart =
    let start : Running = record { registers = k; system = main_threads end_0 end_1 f s } in
    let run = traps-IsRun (d ∷ es) start before (record { thread_0 = ne_0; thread_1 = ne_1 }) in
    let on = run.current ∙ turn-other (length es) pcb_boot in
    let rest =
      IsResumed-after e g run.state (turn (length es) pcb_boot) run.ready on now.1 small now.0
        now.2.0 apart in
    rw (traps-append (d ∷ es) (e ∷ g ∷ []) start run.state run.ends)
      (subst (λ p. IsResumed p e (traps (e ∷ g ∷ []) run.state)) run.current rest)
