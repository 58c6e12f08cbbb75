-- ===== src/Kernels/ThreadOs/Main.antt =====
-- The ring that main sets up, and the runs of the kernel from there.
use ic_competition.Base.{
  ℕ, zero, suc, ◌+◌, ◌<◌, ◌≤◌, ◌%◌, ◌≡◌, refl, sym, ap, ◌∙◌, inl, inr, ◌==◌, List, [], ◌∷◌, Option,
  none, some, arith, Bool-cases,
}
use native.Mathlib.Nat.{mod-eq_of_lt, mod_self}
use mathlib.Core.Option.{none-ne-some}
use ic_competition.Kernels.ThreadOs.{Task, Os, set_task, main_loop}
use ic_competition.Kernels.ThreadOs.Ring.{successor, IsRing}
use ic_competition.Kernels.ThreadOs.Assigned.{IsAssigned, on_interrupt-Interrupted}
use ic_competition.Kernels.ThreadOs.Fair.{
  Interrupt, interrupts, then_run, turns, AreOnline, IsReached, interrupts-IsReached,
}

-- Before main no CPU has a current task.
abbrev pub booted : (ℕ → Task) → Os
booted tasks = record { currents = λ c. none; tasks = tasks }

-- The state that main leaves for the CPUs, with `n` tasks.
abbrev pub started : ℕ → (ℕ → ℕ) → (ℕ → Task) → Os
started n kcontext tasks = main_loop n 0 n kcontext (booted tasks)

successor_mod : (n t : ℕ) → t < n → (t + 1) % n ≡ successor n t
successor_mod n t lt = elim (Bool-cases (t + 1 == n)) [
  | inl e ↦ let same : n ≡ t + 1 = ground arith in rw e (ap (λ x. x % n) (sym same) ∙ mod_self n)
  | inr ne ↦ rw ne (mod-eq_of_lt (ground arith))
]

main_loop-next :
    (r i n : ℕ) (kcontext : ℕ → ℕ) (s : Os)
    → n ≡ i + r
    → ((t : ℕ) → t < i → (s.tasks t).next ≡ some (successor n t))
    → IsRing n (main_loop r i n kcontext s).tasks
unfolding main_loop IsRing
main_loop-next zero i n kcontext s e done = λ t lt. done t (omega arith)
main_loop-next (suc r) i n kcontext s e done =
    let task = record (s.tasks i) { context = kcontext i; next = some ((i + 1) % n) } in
    main_loop-next r (i + 1) n kcontext (set_task i task s) (omega arith) (λ t lt.
      elim (Bool-cases (t == i)) [
        | inl here ↦
            let same : i ≡ t = ground arith in
            rw here
              (ap some (successor_mod n i (omega arith)) ∙ ap (λ x. some (successor n x)) same)
        | inr ne ↦ rw ne (done t (ground arith))
      ])

main_loop-currents :
    (r i n : ℕ) (kcontext : ℕ → ℕ) (s : Os) → (main_loop r i n kcontext s).currents ≡ s.currents
unfolding main_loop
main_loop-currents zero i n kcontext s = refl
main_loop-currents (suc r) i n kcontext s = main_loop-currents r (i + 1) n kcontext _

started-IsAssigned :
    (n count : ℕ) (kcontext : ℕ → ℕ) (tasks : ℕ → Task)
    → IsAssigned n count (started n kcontext tasks)
started-IsAssigned n count kcontext tasks =
    let idle = main_loop-currents n 0 n kcontext (booted tasks) in
    record {
      ring =
          main_loop-next n 0 n kcontext (booted tasks) (omega arith) (λ t lt. absurd (omega arith));
      bound = λ c t h. absurd (none-ne-some t (sym (ap (λ f. f c) idle) ∙ h));
      own = λ c t h. absurd (none-ne-some t (sym (ap (λ f. f c) idle) ∙ h));
    }

-- The run ends, and afterwards every CPU has a task of its own.
pub record IsRun (n count : ℕ) (result : Option Os) : Type 0 where
  pub state : Os
  pub ends : result ≡ some state
  pub assigned : IsAssigned n count state

interrupts-IsRun :
    (n count : ℕ) (es : List Interrupt) (s : Os)
    → count ≤ n
    → AreOnline count es
    → IsAssigned n count s
    → IsRun n count (interrupts n count es s)
unfolding interrupts then_run AreOnline
interrupts-IsRun n count [] s le on a = record { state = s; ends = refl; assigned = a }
interrupts-IsRun n count (e ∷ es) s le on a =
    let i =
      on_interrupt-Interrupted n count e.0 e.0 e.1 s (omega (arith, on.0)) (mod-eq_of_lt on.0) a in
    rw i.returns (interrupts-IsRun n count es i.after le on.1 i.assigned)

-- No two CPUs run the same task.
pub record IsExclusive (result : Option Os) : Type 0 where
  pub state : Os
  pub ends : result ≡ some state
  pub exclusive : (c d t : ℕ) → state.currents c ≡ some t → state.currents d ≡ some t → c ≡ d

-- With at most as many CPUs as tasks, from the state that main sets up, every sequence of
-- interrupts of the CPUs ends, each within as many rounds of the loop as there are tasks, and
-- afterwards no two CPUs run the same task.
pub interrupts-IsExclusive :
    (n count : ℕ) (es : List Interrupt) (kcontext : ℕ → ℕ) (tasks : ℕ → Task)
    → count ≤ n
    → AreOnline count es
    → IsExclusive (interrupts n count es (started n kcontext tasks))
interrupts-IsExclusive n count es kcontext tasks le on =
    let r =
      interrupts-IsRun n count es (started n kcontext tasks) le on
        (started-IsAssigned n count kcontext tasks) in
    record {
      state = r.state;
      ends = r.ends;
      exclusive = λ c d t h g. sym (r.assigned.own c t h) ∙ r.assigned.own d t g;
    }

-- With at most as many CPUs as tasks, from the state that main sets up, in every sequence of
-- interrupts of the CPUs in which a CPU has as many as there are tasks, this CPU comes to run each
-- task whose number modulo the number of CPUs is its own.
pub started-IsReached :
    (n count cpu u : ℕ) (es : List Interrupt) (kcontext : ℕ → ℕ) (tasks : ℕ → Task)
    → count ≤ n
    → u < n
    → u % count ≡ cpu
    → AreOnline count es
    → n ≤ turns cpu es
    → IsReached n count cpu u es (started n kcontext tasks)
started-IsReached n count cpu u es kcontext tasks le hu mine on d =
    interrupts-IsReached n count cpu u es (started n kcontext tasks) le hu mine on
      (started-IsAssigned n count kcontext tasks) d
