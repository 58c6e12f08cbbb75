-- ===== src/Sim/Exec/Steps.antt =====
-- The loop of execute() as a relation, and the states in which cpu_exec() leaves the simulator.
use ic_competition.Base.{
  ℕ, zero, suc, ◌≤◌, ◌≡◌, refl, sym, ap, ◌∙◌, subst, ◌⊎◌, inl, inr, true, false, Option, some, List,
  arith, Bool-cases, Option-cases,
}
use ic_competition.Difftest.{Reference}
use ic_competition.Sdb.Outcome.{Outcome}
use ic_competition.Sim.Circuit.{is_running, State, Config}
use ic_competition.Sim.Exec.{one_inst, execute}
use mathlib.Core.Option.{some-injective, none-ne-some}

module _ {c r : Type 0} (cfg : Config c) (reference : Reference r)
    (expr : State c r → List ℕ → Outcome) where
  abbrev pub one : State c r → Option (State c r)
  one = one_inst cfg reference expr

  -- `k` instructions were executed one after the other, and the state was running before each.
  pub data Steps : ℕ → State c r → State c r → Type 0 where
    none_left : {s : State c r} → Steps 0 s s
    step :
        {k : ℕ} {s t u : State c r}
        → is_running s.npc.state ≡ true
        → one s ≡ some t
        → Steps k t u
        → Steps (suc k) s u

  -- What execute() did with `n` instructions to go.
  pub record Executed (n : ℕ) (s t : State c r) : Type 0 where
    pub count : ℕ
    pub steps : Steps count s t
    pub bound : count ≤ n
    pub complete : (count ≡ n) ⊎ (is_running t.npc.state ≡ false)

  pub execute-Executed :
      (n : ℕ) (s t : State c r)
      → is_running s.npc.state ≡ true
      → execute cfg reference expr n s ≡ some t
      → Executed n s t
  unfolding execute
  execute-Executed zero s t on e =
      subst (λ x. Executed 0 s x) (some-injective s t e)
        (record { count = 0; steps = none_left; bound = omega arith; complete = inl refl })
  execute-Executed (suc n) s t on e = elim (Option-cases (one s)) [
    | inl panics ↦ absurd (none-ne-some t (sym (rw (panics, execute) refl) ∙ e))
    | inr next ↦ elim (Bool-cases (is_running next.0.npc.state)) [
      | inl goes ↦
          let rest = execute-Executed n next.0 t goes (sym (rw (next.1, execute, goes) refl) ∙ e) in
          record {
            count = suc rest.count;
            steps = step on next.1 rest.steps;
            bound = omega (arith, rest.bound);
            complete = elim rest.complete [ inl a ↦ inl (ap suc a) | inr a ↦ inr a ];
          }
      | inr halts ↦
          let last : next.0 ≡ t =
            some-injective next.0 t (sym (rw (next.1, execute, halts) refl) ∙ e) in
          record {
            count = 1;
            steps = step on next.1 (subst (λ x. Steps 0 next.0 x) last none_left);
            bound = omega arith;
            complete = inr (ap (λ x. is_running x.npc.state) (sym last) ∙ halts);
          }
    ]
  ]
