-- ===== src/Kernels/ThreadOs/Assigned.antt =====
-- One interrupt: it ends, and a CPU runs only the tasks that are its own.
use ic_competition.Base.{
  ℕ, ◌<◌, ◌%◌, ◌≡◌, ◌≢◌, refl, sym, ap, ◌∙◌, subst, ◌⊎◌, inl, inr, true, false, ◌==◌, Option, none,
  some, arith, Bool-cases, Option-cases,
}
use mathlib.Core.Option.{some-injective, none-ne-some}
use ic_competition.Kernels.ThreadOs.{
  Os, set_current, set_task, save_context, next_task, resume, on_interrupt,
}
use ic_competition.Kernels.ThreadOs.Ring.{IsRing, distance, next_task-IsNext}

pub record IsAssigned (n count : ℕ) (s : Os) : Type 0 where
  pub ring : IsRing n s.tasks
  pub bound : (c t : ℕ) → s.currents c ≡ some t → t < n
  pub own : (c t : ℕ) → s.currents c ≡ some t → t % count ≡ c

unfoldable pub task_of : Option ℕ → ℕ
task_of none = 0
task_of (some t) = t

-- The task from which the loop starts.
abbrev pub place : ℕ → Os → ℕ
place cpu s = task_of (s.currents cpu)

-- What an interrupt of `cpu` did: `u` is a task of this CPU, `ctx` the interrupted context.
pub record Interrupted (n count cpu u ctx : ℕ) (s : Os) (result : Option (ℕ × Os)) : Type 0 where
  pub task : ℕ
  pub after : Os
  pub returns : result ≡ some ((after.tasks task).context, after)
  pub current : after.currents cpu ≡ some task
  pub others : (c : ℕ) → c ≢ cpu → after.currents c ≡ s.currents c
  pub assigned : IsAssigned n count after
  pub nearer : (task ≡ u) ⊎ (distance n task u < distance n (place cpu s) u)
  pub saved : (t : ℕ) → s.currents cpu ≡ some t → (after.tasks t).context ≡ ctx
  pub kept : (t : ℕ) → s.currents cpu ≢ some t → (after.tasks t).context ≡ (s.tasks t).context

context_saved-IsRing :
    (n t ctx : ℕ) (s : Os)
    → IsRing n s.tasks
    → IsRing n (set_task t (record (s.tasks t) { context = ctx }) s).tasks
unfolding IsRing
context_saved-IsRing n t ctx s ring u hu = elim (Bool-cases (u == t)) [
  | inl e ↦
      let same : u ≡ t = ground arith in rw e (ap (λ x. (s.tasks x).next) (sym same) ∙ ring u hu)
  | inr ne ↦ rw ne (ring u hu)
]

set_current_cases :
    (c cpu t u : ℕ) (s : Os)
    → (set_current cpu t s).currents c ≡ some u
    → ((c ≡ cpu) × (t ≡ u)) ⊎ ((c ≢ cpu) × (s.currents c ≡ some u))
set_current_cases c cpu t u s h = elim (Bool-cases (c == cpu)) [
  | inl e ↦
      let here : (set_current cpu t s).currents c ≡ some t = rw e refl in
      inl (ground arith, some-injective t u (sym here ∙ h))
  | inr ne ↦
      let here : (set_current cpu t s).currents c ≡ s.currents c = rw ne refl in
      inr (ground arith, sym here ∙ h)
]

set_current-IsAssigned :
    (n count cpu t : ℕ) (s s1 : Os)
    → IsAssigned n count s
    → IsRing n s1.tasks
    → ((c : ℕ) → c ≢ cpu → s1.currents c ≡ s.currents c)
    → t < n
    → t % count ≡ cpu
    → IsAssigned n count (set_current cpu t s1)
set_current-IsAssigned n count cpu t s s1 a ring others lt e = record {
  ring = ring;
  bound = λ c u h. elim (set_current_cases c cpu t u s1 h) [
    | inl same ↦ let eq = same.1 in omega arith
    | inr old ↦ a.bound c u (sym (others c old.0) ∙ old.1)
  ];
  own = λ c u h. elim (set_current_cases c cpu t u s1 h) [
    | inl same ↦ ap (λ x. x % count) (sym same.1) ∙ e ∙ sym same.0
    | inr old ↦ a.own c u (sym (others c old.0) ∙ old.1)
  ];
}

-- The rest of the interrupt, from a state `s1` in which the task `t` has left the CPU.
resume-Interrupted :
    (n count cpu u ctx t : ℕ) (s s1 : Os)
    → IsAssigned n count s
    → IsRing n s1.tasks
    → t ≡ place cpu s
    → t < n
    → u < n
    → u % count ≡ cpu
    → ((c : ℕ) → c ≢ cpu → s1.currents c ≡ s.currents c)
    → ((v : ℕ) → s.currents cpu ≡ some v → (s1.tasks v).context ≡ ctx)
    → ((v : ℕ) → s.currents cpu ≢ some v → (s1.tasks v).context ≡ (s.tasks v).context)
    → Interrupted n count cpu u ctx s (resume (next_task n count cpu s1.tasks t) cpu s1)
unfolding resume
resume-Interrupted n count cpu u ctx t s s1 a ring from ht hu e others saved kept =
    let x = next_task-IsNext n n count cpu s1.tasks t u ring ht hu e (ground arith) in
    record {
      task = x.task;
      after = set_current cpu x.task s1;
      returns = rw x.is_found refl;
      current = ground arith;
      others = λ c ne. rw (others c ne) (ground arith);
      assigned = set_current-IsAssigned n count cpu x.task s s1 a ring others x.bound x.mine;
      nearer = subst (λ y. (x.task ≡ u) ⊎ (distance n x.task u < distance n y u)) from x.nearer;
      saved = saved;
      kept = kept;
    }

abbrev context_saved : Os → ℕ → ℕ → Os
context_saved s t ctx = set_task t (record (s.tasks t) { context = ctx }) s

context_at : (s : Os) (t v ctx : ℕ) → t ≡ v → ((context_saved s t ctx).tasks v).context ≡ ctx
context_at s t v ctx same = let e : (v == t) ≡ true = ground arith in rw e refl

context_elsewhere :
    (s : Os) (t v ctx : ℕ) → t ≢ v → ((context_saved s t ctx).tasks v).context ≡ (s.tasks v).context
context_elsewhere s t v ctx ne = let e : (v == t) ≡ false = ground arith in rw e refl

pub on_interrupt-Interrupted :
    (n count cpu u ctx : ℕ) (s : Os)
    → u < n
    → u % count ≡ cpu
    → IsAssigned n count s
    → Interrupted n count cpu u ctx s (on_interrupt n count cpu ctx s)
unfolding on_interrupt save_context task_of
on_interrupt-Interrupted n count cpu u ctx s lt e a = elim (Option-cases (s.currents cpu)) [
  | inl idle ↦ rw idle (
      resume-Interrupted n count cpu u ctx 0 s (set_current cpu 0 s) a a.ring (rw idle refl)
        (omega arith) lt e (λ c ne. ground arith) (λ v h. absurd (none-ne-some v (sym idle ∙ h)))
        (λ v h. refl))
  | inr busy ↦
      let t = busy.0 in
      let s1 = context_saved s t ctx in
      rw busy.1 (
        resume-Interrupted n count cpu u ctx t s s1 a (context_saved-IsRing n t ctx s a.ring)
          (rw busy.1 refl) (a.bound cpu t busy.1) lt e (λ c ne. refl)
          (λ v h. context_at s t v ctx (some-injective t v (sym busy.1 ∙ h)))
          (λ v h. context_elsewhere s t v ctx (λ same. h (busy.1 ∙ ap some same))))
]

pub place-bound : (n count cpu : ℕ) (s : Os) → 0 < n → IsAssigned n count s → place cpu s < n
unfolding task_of
place-bound n count cpu s pos a = elim (Option-cases (s.currents cpu)) [
  | inl idle ↦ rw idle pos
  | inr busy ↦ rw busy.1 (a.bound cpu busy.0 busy.1)
]
