-- ===== src/Sim/Commands/Exit.antt =====
-- The exit status of a run without a debugger's user.
use ic_competition.Base.{
  ℕ, ◌-◌, ◌^◌, ◌≡◌, ◌≢◌, ◌↔◌, refl, sym, ap, ◌∙◌, inl, inr, true, false, some, List, [], arith,
  Option-cases,
}
use mathlib.Core.Option.{some-injective, none-ne-some}
use ic_competition.Difftest.{Reference}
use ic_competition.Sdb.Outcome.{Outcome}
use ic_competition.Sim.Circuit.{
  Npc, running, quit, stop, abort, end_, is_exit_status_bad, has_ended, State, Config,
}
use ic_competition.Sim.Exec.{cpu_exec}
use ic_competition.Sim.Exec.Ends.{Ran, cpu_exec-cases}
use ic_competition.Sim.Commands.{Printed, sdb_mainloop}

-- Only a simulator that the user left has a good status otherwise.
is_exit_status_bad-cases :
    (s : Npc) (pc ret : ℕ)
    → s ≢ quit
    → (is_exit_status_bad (record { state = s; halt_pc = pc; halt_ret = ret }) ≡ false)
      ↔ ((s ≡ end_) × (ret ≡ 0))
unfolding is_exit_status_bad
is_exit_status_bad-cases end_ pc ret ne = (λ e. (refl, ground arith), λ h. ground (arith, h.1))
is_exit_status_bad-cases quit pc ret ne = absurd (ne refl)
is_exit_status_bad-cases running pc ret ne = (λ e. cc, λ h. absurd (ground (arith, h.0)))
is_exit_status_bad-cases stop pc ret ne = (λ e. cc, λ h. absurd (ground (arith, h.0)))
is_exit_status_bad-cases abort pc ret ne = (λ e. cc, λ h. absurd (ground (arith, h.0)))

module _ {c r : Type 0} (cfg : Config c) (reference : Reference r)
    (expr : State c r → List ℕ → Outcome) (atoi : List ℕ → ℕ) where
  -- In batch mode, a simulator that starts stopped and returns from sdb_mainloop() has executed
  -- instructions one after the other, as many as cpu_exec(-1) allows or up to the first after which
  -- it no longer runs; and its exit status is good exactly when its state is NPC_END and `halt_ret`
  -- is 0.
  pub is_exit_status_bad-sdb_mainloop :
      (lines : List (List ℕ)) (s t : State c r) (out : List Printed)
      → s.npc.state ≡ stop
      → sdb_mainloop cfg reference expr atoi true lines s ≡ some (t, out)
      → Ran cfg reference expr (2 ^ 64 - 1) s t
        × ((is_exit_status_bad t.npc ≡ false) ↔ ((t.npc.state ≡ end_) × (t.npc.halt_ret ≡ 0)))
  unfolding sdb_mainloop
  is_exit_status_bad-sdb_mainloop lines s t out stopped e =
      elim (Option-cases (cpu_exec cfg reference expr (2 ^ 64 - 1) s)) [
        | inl panics ↦ absurd (none-ne-some (t, out) (sym (rw (panics, sdb_mainloop) refl) ∙ e))
        | inr got ↦
            let same : got.0 ≡ t =
              ap (λ x. x.0)
                (some-injective (got.0, []) (t, out) (sym (rw (got.1, sdb_mainloop) refl) ∙ e)) in
            elim (cpu_exec-cases cfg reference expr (2 ^ 64 - 1) s t (got.1 ∙ ap some same)) [
              | inl ended ↦
                  let off : has_ended s.npc.state ≡ false = ap has_ended stopped in
                  absurd (ground (arith, ended.0))
              | inr ran ↦ (
                ran.1,
                is_exit_status_bad-cases t.npc.state t.npc.halt_pc t.npc.halt_ret ran.1.halted.1,
              )
            ]
      ]
