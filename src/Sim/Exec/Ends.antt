-- ===== src/Sim/Exec/Ends.antt =====
-- The states in which cpu_exec() leaves the simulator.
use ic_competition.Base.{
  ℕ, ◌+◌, ◌%◌, ◌^◌, ◌≡◌, ◌≢◌, refl, sym, ap, ◌∙◌, subst, ◌⊎◌, inl, inr, Bool, true, false,
  if◌then◌else◌, Option, none, some, List, arith, Bool-cases, Option-cases,
}
use mathlib.Core.Option.{some-injective, none-ne-some}
use ic_competition.Difftest.{Reference}
use ic_competition.Sdb.Outcome.{Outcome}
use ic_competition.Sdb.Watchpoint.{scan_wp_diff, Scanned, scanned, asserted, out_of_fuel}
use ic_competition.Sim.Memory.{read_inst}
use ic_competition.Sim.Circuit.{
  Npc, NpcState, is_end, running, quit, is_running, State, set_npc, Config, settle, has_ended,
  exec_one_inst,
}
use ic_competition.Sim.Exec.{
  hits, iringbuf_push, verdict, hit_state, tested, compare, scan, trace_and_difftest, finish_inst,
  one_inst, execute, cpu_exec,
}
use ic_competition.Sim.Exec.Cycles.{cycles-Kept}
use ic_competition.Sim.Exec.Steps.{Steps, none_left, step, Executed, execute-Executed}

verdict-not_quit : (p : Option ℕ) (n : NpcState) → n.state ≢ quit → (verdict p n).state ≢ quit
unfolding verdict
verdict-not_quit none n ne = ne
verdict-not_quit (some p) n ne = λ q. cc

hit_state-not_quit : (hit : Bool) (n : Npc) → n ≢ quit → hit_state hit n ≢ quit
unfolding hit_state
hit_state-not_quit true n ne = elim (Bool-cases (is_end n)) [
  | inl e ↦ rw e (λ q. cc)
  | inr e ↦ rw e (λ q. cc)
]
hit_state-not_quit false n ne = ne

module _ {c r : Type 0} (cfg : Config c) (reference : Reference r)
    (expr : State c r → List ℕ → Outcome) where
  compare-not_quit :
      (pc : ℕ) (s : State c r) → s.npc.state ≢ quit → (compare cfg reference pc s).npc.state ≢ quit
  unfolding compare
  compare-not_quit pc s ne = verdict-not_quit (tested cfg reference pc s).aborted s.npc ne

  either-not_quit :
      (b : Bool) (s t : State c r)
      → s.npc.state ≢ quit
      → t.npc.state ≢ quit
      → (if b then s else t).npc.state ≢ quit
  either-not_quit true s t p q = p
  either-not_quit false s t p q = q

  hits-not_quit :
      {e : List ℕ → Outcome} (x : Scanned e) (s t : State c r)
      → s.npc.state ≢ quit
      → hits cfg reference expr x s ≡ some t
      → t.npc.state ≢ quit
  unfolding hits
  hits-not_quit (scanned p hit) s t ne e =
      let same = some-injective _ t e in
      λ q. hit_state-not_quit hit s.npc.state ne (ap (λ x. x.npc.state) same ∙ q)
  hits-not_quit asserted s t ne e = absurd (none-ne-some t e)
  hits-not_quit out_of_fuel s t ne e = absurd (none-ne-some t e)

  trace-not_quit :
      (pc : ℕ) (line : List ℕ) (s t : State c r)
      → s.npc.state ≢ quit
      → trace_and_difftest cfg reference expr pc line s ≡ some t
      → t.npc.state ≢ quit
  unfolding trace_and_difftest scan
  trace-not_quit pc line s t ne e =
      let s1 = if cfg.difftest then compare cfg reference pc s else s in
      let s2 = record s1 { iring = iringbuf_push line s1.iring } in
      let ne1 : s1.npc.state ≢ quit =
        either-not_quit cfg.difftest (compare cfg reference pc s) s (compare-not_quit pc s ne) ne in
      elim (Bool-cases cfg.watchpoint) [
        | inl on ↦ hits-not_quit (scan_wp_diff (expr s2) 33 s2.pool) s2 t ne1 (sym (rw on refl) ∙ e)
        | inr off ↦
            let same = some-injective s2 t (sym (rw off refl) ∙ e) in
            λ q. ne1 (ap (λ x. x.npc.state) same ∙ q)
      ]

  finish-not_quit :
      (s t : State c r)
      → s.npc.state ≢ quit
      → finish_inst cfg reference expr s ≡ some t
      → t.npc.state ≢ quit
  unfolding finish_inst
  finish-not_quit s t ne e =
      let pc = cfg.circuit.read_pc s.circuit in
      elim (Option-cases (read_inst pc s.bus)) [
        | inl panics ↦ absurd (none-ne-some t (sym (rw (panics, finish_inst) refl) ∙ e))
        | inr inst ↦
            trace-not_quit pc (cfg.logbuf pc inst.0)
              (record s { nr_guest_inst = (s.nr_guest_inst + 1) % 2 ^ 64 }) t ne
              (sym (rw (inst.1, finish_inst) refl) ∙ e)
      ]

  one-not_quit :
      (s t : State c r)
      → s.npc.state ≢ quit
      → one_inst cfg reference expr s ≡ some t
      → t.npc.state ≢ quit
  unfolding one_inst
  one-not_quit s t ne e = elim (Option-cases (exec_one_inst cfg s)) [
    | inl panics ↦ absurd (none-ne-some t (sym (rw (panics, one_inst) refl) ∙ e))
    | inr done ↦
        finish-not_quit done.0 t ((cycles-Kept cfg 40 s done.0 done.1).not_quit ne)
          (sym (rw (done.1, one_inst) refl) ∙ e)
  ]

  Steps-not_quit :
      {k : ℕ} {s t : State c r}
      → Steps cfg reference expr k s t
      → s.npc.state ≢ quit
      → t.npc.state ≢ quit
  Steps-not_quit none_left ne = ne
  Steps-not_quit (step {s} {t} goes one rest) ne = Steps-not_quit rest (one-not_quit s t ne one)

  -- The run that a call made: up to `n` instructions, the last of which may have ended it.
  pub record Ran (n : ℕ) (s t : State c r) : Type 0 where
    pub last : State c r
    pub executed : Executed cfg reference expr n (set_npc running s) last
    pub settled : t ≡ settle last
    pub halted : (t.npc.state ≢ running) × (t.npc.state ≢ quit)

  settle-halted :
      (s : State c r)
      → s.npc.state ≢ quit
      → ((settle s).npc.state ≢ running) × ((settle s).npc.state ≢ quit)
  settle-halted s ne = elim (Bool-cases (is_running s.npc.state)) [
    | inl on ↦ rw on (λ q. cc, λ q. cc)
    | inr off ↦ rw off (λ q. absurd (ground (arith, ap is_running q)), ne)
  ]

  -- A call of cpu_exec that returns either found the simulator ended, and left it alone; or it
  -- executed instructions one after the other, as many as were asked for or up to the first after
  -- which the simulator no longer runs, and left it stopped, aborted or ended: neither running nor
  -- quit.
  pub cpu_exec-cases :
      (n : ℕ) (s t : State c r)
      → cpu_exec cfg reference expr n s ≡ some t
      → ((has_ended s.npc.state ≡ true) × (t ≡ s)) ⊎ ((has_ended s.npc.state ≡ false) × Ran n s t)
  unfolding cpu_exec
  cpu_exec-cases n s t e = elim (Bool-cases (has_ended s.npc.state)) [
    | inl ended ↦ inl (ended, sym (some-injective s t (sym (rw (cpu_exec, ended) refl) ∙ e)))
    | inr going ↦ elim (Option-cases (execute cfg reference expr n (set_npc running s))) [
      | inl panics ↦ absurd (none-ne-some t (sym (rw (cpu_exec, going, panics) refl) ∙ e))
      | inr ran ↦
          let done = some-injective (settle ran.0) t (sym (rw (cpu_exec, going, ran.1) refl) ∙ e) in
          let executed =
            execute-Executed cfg reference expr n (set_npc running s) ran.0 refl ran.1 in
          let halted = settle-halted ran.0 (Steps-not_quit executed.steps (λ q. cc)) in
          inr (
            going,
            record {
              last = ran.0;
              executed = executed;
              settled = sym done;
              halted = subst (λ x. (x.npc.state ≢ running) × (x.npc.state ≢ quit)) done halted;
            },
          )
    ]
  ]
