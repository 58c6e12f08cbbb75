-- ===== src/Kernels/YieldOs/Switch.antt =====
-- What one trap of yield-os.c does.
use ic_competition.Base.{ℕ, ◌≡◌, ◌≢◌, refl, ap, ◌==◌, true, false, Option, some, arith}
use ic_competition.Kernels.Cte.{Context, Contexts, put_context, irq_handle, step_over}
use ic_competition.Kernels.YieldOs.{
  Pcb, pcb_0, pcb_1, pcb_boot, Statics, cp, set_cp, other, schedule, System, restored, trap,
  Running, frame, pushed, popped,
}

-- Both threads have a context.
pub record IsReady (s : System) : Type 0 where
  pub thread_0 : s.1.cp_0 ≢ 0
  pub thread_1 : s.1.cp_1 ≢ 0

-- What a trap did of a thread with the registers `r`.
pub record IsSwitched (r : Context) (s : System) (result : Option Running) : Type 0 where
  pub after : Running
  pub runs : result ≡ some after
  pub current : after.system.1.current ≡ other s.1.current
  pub saved : cp s.1.current after.system.1 ≡ frame r
  pub kept : cp (other s.1.current) after.system.1 ≡ cp (other s.1.current) s.1
  pub stored : after.system.0 (frame r) ≡ step_over (pushed r (s.0 (frame r)))
  pub elsewhere : (a : ℕ) → a ≢ frame r → after.system.0 a ≡ s.0 a
  pub loaded :
      after.registers
      ≡ popped (cp (other s.1.current) s.1) r (after.system.0 (cp (other s.1.current) s.1))
  pub ready : IsReady after.system

-- The variables after the switch from the thread `p`.
abbrev switched : Pcb → ℕ → Statics → Statics
switched p c s = record (set_cp p c s) { current = other p }

cp-switched : (p : Pcb) (c : ℕ) (s : Statics) → cp p (switched p c s) ≡ c
unfolding cp set_cp
cp-switched pcb_0 c s = refl
cp-switched pcb_1 c s = refl
cp-switched pcb_boot c s = refl

cp-other-switched : (p : Pcb) (c : ℕ) (s : Statics) → cp (other p) (switched p c s) ≡ cp (other p) s
unfolding cp set_cp other
cp-other-switched pcb_0 c s = refl
cp-other-switched pcb_1 c s = refl
cp-other-switched pcb_boot c s = refl

switched-IsReady :
    (p : Pcb) (c : ℕ) (a b : Contexts) (s : Statics)
    → c ≢ 0
    → IsReady (a, s)
    → IsReady (b, switched p c s)
unfolding set_cp
switched-IsReady pcb_0 c a b s ne ready = record { thread_0 = ne; thread_1 = ready.thread_1 }
switched-IsReady pcb_1 c a b s ne ready = record { thread_0 = ready.thread_0; thread_1 = ne }
switched-IsReady pcb_boot c a b s ne ready = record {
  thread_0 = ready.thread_0;
  thread_1 = ready.thread_1;
}

cp-other-IsReady : (p : Pcb) (a : Contexts) (s : Statics) → IsReady (a, s) → cp (other p) s ≢ 0
unfolding cp other
cp-other-IsReady pcb_0 a s ready = ready.thread_1
cp-other-IsReady pcb_1 a s ready = ready.thread_0
cp-other-IsReady pcb_boot a s ready = ready.thread_0

pub trap-IsSwitched :
    (r : Context) (contexts : Contexts) (s : Statics)
    → frame r ≢ 0
    → IsReady (contexts, s)
    → IsSwitched r (contexts, s) (trap r (contexts, s))
unfolding trap restored irq_handle schedule
trap-IsSwitched r contexts s ne ready =
    let p = s.current in
    let c = frame r in
    let own : (c == c) ≡ true = ground arith in
    let next = cp-other-switched p c s in
    let not_null = cp-other-IsReady p contexts s ready in
    let passes : (cp (other p) (switched p c s) == 0) ≡ false = ground (arith, next) in
    let under = put_context c (pushed r (contexts c)) contexts in
    let after = put_context c (step_over (under c)) under in
    let target = cp (other p) (switched p c s) in
    record {
      after = record {
        registers = popped target r (after target);
        system = (after, switched p c s);
      };
      runs = rw passes refl;
      current = refl;
      saved = cp-switched p c s;
      kept = next;
      stored = rw own refl;
      elsewhere = λ a other_place. let e : (a == c) ≡ false = ground arith in rw e refl;
      loaded = ap (λ a. popped a r (after a)) next;
      ready = switched-IsReady p c contexts after s ne ready;
    }
