-- ===== src/Kernels/ThreadOs/Fair.antt =====
-- Sequences of interrupts on several CPUs.
use ic_competition.Base.{
  ℕ, suc, ◌<◌, ◌≤◌, ◌%◌, ◌≡◌, refl, ap, ◌∙◌, subst, inl, inr, ◌==◌, if◌then◌else◌, List, [], ◌∷◌,
  ◌++◌, Option, none, some, arith, Bool-cases,
}
use native.Mathlib.Nat.{mod-eq_of_lt}
use ic_competition.Kernels.ThreadOs.{Os, on_interrupt}
use ic_competition.Kernels.ThreadOs.Ring.{distance}
use ic_competition.Kernels.ThreadOs.Assigned.{
  IsAssigned, task_of, place, place-bound, on_interrupt-Interrupted,
}

-- An interrupt: its CPU, and the address of the context that was interrupted.
abbrev pub Interrupt : Type 0
Interrupt = ℕ × ℕ

unfoldable pub then_run : (Os → Option Os) → Option (ℕ × Os) → Option Os
then_run rest none = none
then_run rest (some r) = rest r.1

-- The state after a sequence of interrupts, in the order in which they come.
unfoldable pub interrupts : ℕ → ℕ → List Interrupt → Os → Option Os
interrupts n count [] s = some s
interrupts n count (e ∷ es) s = then_run (interrupts n count es) (on_interrupt n count e.0 e.1 s)

-- How many interrupts a CPU has.
unfoldable pub turns : ℕ → List Interrupt → ℕ
turns cpu [] = 0
turns cpu (e ∷ es) = let rest = turns cpu es in if e.0 == cpu then suc rest else rest

unfoldable pub AreOnline : ℕ → List Interrupt → Type 0
AreOnline count [] = Unit
AreOnline count (e ∷ es) = (e.0 < count) × AreOnline count es

-- At some point of the sequence the task `u` is the one that the CPU runs.
pub record IsReached (n count cpu u : ℕ) (es : List Interrupt) (s : Os) : Type 0 where
  pub before : List Interrupt
  pub behind : List Interrupt
  pub state : Os
  pub splits : before ++ behind ≡ es
  pub runs : interrupts n count before s ≡ some state
  pub current : state.currents cpu ≡ some u

IsReached-later :
    {n count cpu u : ℕ} {e : Interrupt} {es : List Interrupt} {s s1 : Os}
    → (c : ℕ) → on_interrupt n count e.0 e.1 s ≡ some (c, s1)
    → IsReached n count cpu u es s1
    → IsReached n count cpu u (e ∷ es) s
unfolding interrupts then_run
IsReached-later {n} {count} {cpu} {u} {e} {es} {s} {s1} c one r = record {
  before = e ∷ r.before;
  behind = r.behind;
  state = r.state;
  splits = ap (λ l. e ∷ l) r.splits;
  runs = rw one r.runs;
  current = r.current;
}

IsReached-now :
    {n count cpu u : ℕ} {e : Interrupt} {es : List Interrupt} {s s1 : Os}
    → (c : ℕ) → on_interrupt n count e.0 e.1 s ≡ some (c, s1)
    → s1.currents cpu ≡ some u
    → IsReached n count cpu u (e ∷ es) s
unfolding interrupts then_run
IsReached-now {n} {count} {cpu} {u} {e} {es} {s} {s1} c one now = record {
  before = e ∷ [];
  behind = es;
  state = s1;
  splits = refl;
  runs = rw one refl;
  current = now;
}

pub interrupts-IsReached_within :
    (n count cpu u : ℕ) (es : List Interrupt) (s : Os)
    → count ≤ n
    → u < n
    → u % count ≡ cpu
    → AreOnline count es
    → IsAssigned n count s
    → distance n (place cpu s) u ≤ turns cpu es
    → IsReached n count cpu u es s
unfolding interrupts then_run turns AreOnline task_of
interrupts-IsReached_within n count cpu u [] s le hu mine on a d =
    let bound = place-bound n count cpu s (omega arith) a in absurd (ground arith)
interrupts-IsReached_within n count cpu u (e ∷ es) s le hu mine on a d =
    elim (Bool-cases (e.0 == cpu)) [
      | inl same ↦
          let on_cpu : cpu ≡ e.0 = ground arith in
          let i = on_interrupt-Interrupted n count cpu u e.1 s hu mine a in
          let returns =
            subst
              (λ x. on_interrupt n count x e.1 s ≡ some ((i.after.tasks i.task).context, i.after))
              on_cpu i.returns in
          let left : distance n (place cpu s) u ≤ suc (turns cpu es) = ground arith in
          elim i.nearer [
            | inl now ↦
                IsReached-now ((i.after.tasks i.task).context) returns (i.current ∙ ap some now)
            | inr near ↦
                let d1 : distance n i.task u ≤ turns cpu es = omega arith in
                IsReached-later ((i.after.tasks i.task).context) returns (
                  interrupts-IsReached_within n count cpu u es i.after le hu mine on.1 i.assigned
                    (rw i.current d1))
          ]
      | inr ne ↦
          let c = e.0 in
          let own : c % count ≡ c = mod-eq_of_lt on.0 in
          let i = on_interrupt-Interrupted n count c c e.1 s (omega (arith, on.0)) own a in
          let stays = i.others cpu (λ same. absurd (ground arith)) in
          let left : distance n (place cpu s) u ≤ turns cpu es = ground arith in
          IsReached-later ((i.after.tasks i.task).context) i.returns (
            interrupts-IsReached_within n count cpu u es i.after le hu mine on.1 i.assigned
              (rw stays left))
    ]

-- With at most as many CPUs as tasks, in every sequence of interrupts of the CPUs in which a CPU
-- has as many as there are tasks, it comes to run each of the tasks that are its own.
pub interrupts-IsReached :
    (n count cpu u : ℕ) (es : List Interrupt) (s : Os)
    → count ≤ n
    → u < n
    → u % count ≡ cpu
    → AreOnline count es
    → IsAssigned n count s
    → n ≤ turns cpu es
    → IsReached n count cpu u es s
interrupts-IsReached n count cpu u es s le hu mine on a d =
    let bound = place-bound n count cpu s (omega arith) a in
    interrupts-IsReached_within n count cpu u es s le hu mine on a (ground arith)
