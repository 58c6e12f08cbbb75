-- ===== src/Sim/Exec/Checked.antt =====
-- The execution together with the difference test.
use ic_competition.Base.{
  ℕ, ◌+◌, ◌%◌, ◌^◌, ◌≡◌, refl, sym, ap, ◌∙◌, subst, inl, inr, Bool, true, false, if◌then◌else◌,
  Option, none, some, List, arith, Bool-cases, Option-cases,
}
use mathlib.Core.Option.{some-injective, none-ne-some}
use ic_competition.Difftest.{
  Reference, difftest_step, AgreesWith, difftest_step-Compared, difftest_skip_ref,
}
use ic_competition.Sdb.Outcome.{Outcome}
use ic_competition.Sdb.Watchpoint.{scan_wp_diff, Scanned, scanned, asserted, out_of_fuel}
use ic_competition.Sim.Memory.{read_inst}
use ic_competition.Sim.Circuit.{
  Npc, NpcState, is_end, stop, end_, is_running, State, Config, exec_one_inst,
}
use ic_competition.Sim.Exec.{
  hits, iringbuf_push, verdict, hit_state, tested, compare, scan, trace_and_difftest, finish_inst,
  one_inst,
}
use ic_competition.Sim.Exec.Cycles.{cycles-Kept}

verdict-running : (p : Option ℕ) (n : NpcState) → is_running (verdict p n).state ≡ true → p ≡ none
unfolding verdict
verdict-running none n on = refl
verdict-running (some p) n on = cc

hit_state-running :
    (hit : Bool) (n : Npc) → is_running (hit_state hit n) ≡ true → is_running n ≡ true
unfolding hit_state
hit_state-running true n on = elim (Bool-cases (is_end n)) [
  | inl e ↦
      let off : is_running (if is_end n then end_ else stop) ≡ false = rw e refl in
      absurd (ground arith)
  | inr e ↦
      let off : is_running (if is_end n then end_ else stop) ≡ false = rw e refl in
      absurd (ground arith)
]
hit_state-running false n on = on

module _ {c r : Type 0} (cfg : Config c) (reference : Reference r)
    (expr : State c r → List ℕ → Outcome) where
  hits-running :
      {e : List ℕ → Outcome} (x : Scanned e) (s t : State c r)
      → hits cfg reference expr x s ≡ some t
      → is_running t.npc.state ≡ true
      → (is_running s.npc.state ≡ true) × (t.test ≡ s.test)
  unfolding hits
  hits-running (scanned p hit) s t e on =
      let same = some-injective _ t e in
      (
        hit_state-running hit s.npc.state (ap (λ x. is_running x.npc.state) same ∙ on),
        ap (λ x. x.test) (sym same),
      )
  hits-running asserted s t e on = absurd (none-ne-some t e)
  hits-running out_of_fuel s t e on = absurd (none-ne-some t e)

  -- The state between the comparison and the watchpoints.
  abbrev logged : ℕ → List ℕ → State c r → State c r
  logged pc line s =
      let s1 = if cfg.difftest then compare cfg reference pc s else s in
      record s1 { iring = iringbuf_push line s1.iring }

  trace-running :
      (pc : ℕ) (line : List ℕ) (s t : State c r)
      → trace_and_difftest cfg reference expr pc line s ≡ some t
      → is_running t.npc.state ≡ true
      → (is_running (logged pc line s).npc.state ≡ true) × (t.test ≡ (logged pc line s).test)
  unfolding trace_and_difftest scan
  trace-running pc line s t e on =
      let s2 = logged pc line s in
      elim (Bool-cases cfg.watchpoint) [
        | inl w ↦ hits-running (scan_wp_diff (expr s2) 33 s2.pool) s2 t (sym (rw w refl) ∙ e) on
        | inr w ↦
            let same = some-injective s2 t (sym (rw w refl) ∙ e) in
            (ap (λ x. is_running x.npc.state) same ∙ on, ap (λ x. x.test) (sym same))
      ]

  compared-running :
      (pc : ℕ) (line : List ℕ) (s t : State c r)
      → cfg.difftest ≡ true
      → trace_and_difftest cfg reference expr pc line s ≡ some t
      → is_running t.npc.state ≡ true
      → ((tested cfg reference pc s).aborted ≡ none) × (t.test ≡ tested cfg reference pc s)
  unfolding compare
  compared-running pc line s t diff e on =
      let run = trace-running pc line s t e on in
      let chosen : (if cfg.difftest then compare cfg reference pc s else s)
          ≡ compare cfg reference pc s =
        ap (λ b. if b then compare cfg reference pc s else s) diff in
      (
        verdict-running (tested cfg reference pc s).aborted s.npc
            (ap (λ x. is_running x.npc.state) (sym chosen) ∙ run.0),
        run.1 ∙ ap (λ x. x.test) chosen,
      )

  -- The instruction was compared and agreed: `s` before it, `u` when the circuit has finished it, `t`
  -- behind it.
  pub record Agreed (s u t : State c r) : Type 0 where
    pub executed : t.test.ref ≡ reference.exec_one s.test.ref
    pub recorded :
        t.test.cpu
        ≡ record { gpr = cfg.circuit.read_reg u.circuit; pc = cfg.circuit.read_pc u.circuit }
    pub agrees : AgreesWith (reference.to_dut t.test.ref) s.test.cpu (cfg.circuit.read_pc u.circuit)

  tested-Agreed :
      (u t : State c r)
      → u.test.is_skip_ref ≡ false
      → u.bus.skipped ≡ false
      → u.test.n_ignore_first ≡ true
      → (tested cfg reference (cfg.circuit.read_pc u.circuit) u).aborted ≡ none
      → t.test ≡ tested cfg reference (cfg.circuit.read_pc u.circuit) u
      → Agreed u u t
  unfolding tested
  tested-Agreed u t skip bus first passed same =
      let now = cfg.circuit.read_reg u.circuit in
      let pc = cfg.circuit.read_pc u.circuit in
      let before = record u.test { aborted = none } in
      let after = difftest_step reference now pc before in
      let chosen : tested cfg reference pc u ≡ after =
        ap
          (λ b.
            difftest_step reference now pc
              (record (if b then difftest_skip_ref reference u.test else u.test) {
                aborted = none;
              }))
          bus in
      let c = difftest_step-Compared reference now pc before skip first in
      let is_after = same ∙ chosen in
      record {
        executed = ap (λ x. x.ref) is_after ∙ c.executed;
        recorded = ap (λ x. x.cpu) is_after ∙ c.recorded;
        agrees = elim c.verdict [
          | inl good ↦
              subst (λ x. AgreesWith (reference.to_dut x.ref) u.test.cpu pc) (sym is_after) good.0
          | inr bad ↦ absurd (none-ne-some pc (sym passed ∙ ap (λ x. x.aborted) chosen ∙ bad.1))
        ];
      }

  -- With the difference test, when an instruction that reached no device, not the first and not one
  -- behind a skip, leaves the simulator running: the reference has executed one instruction, its
  -- registers are those recorded before and its PC is that of the instruction, and the circuit's
  -- registers are recorded now.
  pub one_inst-Agreed :
      (s u t : State c r)
      → cfg.difftest ≡ true
      → s.test.is_skip_ref ≡ false
      → s.test.n_ignore_first ≡ true
      → exec_one_inst cfg s ≡ some u
      → u.bus.skipped ≡ false
      → one_inst cfg reference expr s ≡ some t
      → is_running t.npc.state ≡ true
      → Agreed s u t
  unfolding one_inst finish_inst
  one_inst-Agreed s u t diff skip first done bus e on =
      let pc = cfg.circuit.read_pc u.circuit in
      let same = (cycles-Kept cfg 40 s u done).test in
      elim (Option-cases (read_inst pc u.bus)) [
        | inl panics ↦
            absurd (none-ne-some t (sym (rw (done, one_inst, panics, finish_inst) refl) ∙ e))
        | inr inst ↦
            let u1 = record u { nr_guest_inst = (u.nr_guest_inst + 1) % 2 ^ 64 } in
            let run =
              compared-running pc (cfg.logbuf pc inst.0) u1 t diff
                (sym (rw (done, one_inst, inst.1, finish_inst) refl) ∙ e) on in
            let a =
              tested-Agreed u1 t (ap (λ x. x.is_skip_ref) same ∙ skip) bus
                (ap (λ x. x.n_ignore_first) same ∙ first) run.0 run.1 in
            record {
              executed = a.executed ∙ ap (λ x. reference.exec_one x.ref) same;
              recorded = a.recorded;
              agrees = subst (λ x. AgreesWith (reference.to_dut t.test.ref) x.cpu pc) same a.agrees;
            }
      ]
