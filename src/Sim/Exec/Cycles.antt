-- ===== src/Sim/Exec/Cycles.antt =====
-- What the cycles of the circuit leave alone.
use ic_competition.Base.{
  ℕ, zero, suc, ◌+◌, ◌%◌, ◌^◌, ◌≡◌, ◌≢◌, refl, sym, ap, ◌∙◌, subst, ◌==◌, Bool, inl, inr, some,
  Bool-cases, Option-cases,
}
use mathlib.Core.Option.{some-injective, none-ne-some}
use ic_competition.Sim.Memory.{pmem_read, pmem_write}
use ic_competition.Sim.Circuit.{
  quit, end_, is_running, Cycle, settled, read, write, npctrap, unknow_inst, State, run_cycle,
  Config, single_cycle, cycles,
}

-- The test, the watchpoints and the ring of instructions are the same, and the debugger's user has
-- not quit.
pub record Kept {c r : Type 0} (s t : State c r) : Type 0 where
  pub test : t.test ≡ s.test
  pub pool : t.pool ≡ s.pool
  pub iring : t.iring ≡ s.iring
  pub not_quit : s.npc.state ≢ quit → t.npc.state ≢ quit

module _ {c r : Type 0} where
  run_cycle-Kept :
      (device : Bool) (us : ℕ) (x : Cycle c) (s t : State c r)
      → run_cycle device us x s ≡ some t
      → Kept s t
  unfolding run_cycle
  run_cycle-Kept device us (settled x) s t e =
      let same = some-injective (record s { circuit = x }) t e in
      record {
        test = ap (λ u. u.test) (sym same);
        pool = ap (λ u. u.pool) (sym same);
        iring = ap (λ u. u.iring) (sym same);
        not_quit = λ ne q. ne (ap (λ u. u.npc.state) same ∙ q);
      }
  run_cycle-Kept device us (read a k) s t e = elim (Option-cases (pmem_read device us a s.bus)) [
    | inl panics ↦ absurd (none-ne-some t (sym (rw (panics, run_cycle) refl) ∙ e))
    | inr got ↦
        let rest =
          run_cycle-Kept device us (k got.0.0) (record s { bus = got.0.1 }) t
            (sym (rw (got.1, run_cycle) refl) ∙ e) in
        record { test = rest.test; pool = rest.pool; iring = rest.iring; not_quit = rest.not_quit }
  ]
  run_cycle-Kept device us (write a v m k) s t e =
      elim (Option-cases (pmem_write device a v m s.bus)) [
        | inl panics ↦ absurd (none-ne-some t (sym (rw (panics, run_cycle) refl) ∙ e))
        | inr got ↦
            let rest =
              run_cycle-Kept device us k (record s { bus = got.0 }) t
                (sym (rw (got.1, run_cycle) refl) ∙ e) in
            record {
              test = rest.test;
              pool = rest.pool;
              iring = rest.iring;
              not_quit = rest.not_quit;
            }
      ]
  run_cycle-Kept device us (npctrap pc a0 k) s t e =
      let rest =
        run_cycle-Kept device us k
          (record s { npc = record { state = end_; halt_pc = pc; halt_ret = a0 } }) t e in
      record {
        test = rest.test;
        pool = rest.pool;
        iring = rest.iring;
        not_quit = λ ne. rest.not_quit (λ q. cc);
      }
  run_cycle-Kept device us (unknow_inst pc k) s t e = elim (Bool-cases (is_running s.npc.state)) [
    | inl on ↦ absurd (none-ne-some t (sym (rw on refl) ∙ e))
    | inr off ↦ run_cycle-Kept device us k s t (sym (rw off refl) ∙ e)
  ]

module _ {c r : Type 0} (cfg : Config c) where
  single_cycle-Kept : (s t : State c r) → single_cycle cfg s ≡ some t → Kept s t
  unfolding single_cycle
  single_cycle-Kept s t e =
      let ticks = (s.nr_clk_tick + 1) % 2 ^ 64 in
      let k =
        run_cycle-Kept cfg.device (cfg.get_time ticks) (cfg.circuit.cycle s.circuit)
          (record s { nr_clk_tick = ticks }) t e in
      record { test = k.test; pool = k.pool; iring = k.iring; not_quit = k.not_quit }

  pub cycles-Kept : (n : ℕ) (s t : State c r) → cycles cfg n s ≡ some t → Kept s t
  unfolding cycles
  cycles-Kept zero s t e = absurd (none-ne-some t e)
  cycles-Kept (suc n) s t e = elim (Option-cases (single_cycle cfg s)) [
    | inl panics ↦ absurd (none-ne-some t (sym (rw (panics, cycles) refl) ∙ e))
    | inr one ↦
        let first = single_cycle-Kept s one.0 one.1 in
        elim (Bool-cases (cfg.circuit.read_state one.0.circuit == 1)) [
          | inl done ↦
              let last = some-injective one.0 t (sym (rw (one.1, cycles, done) refl) ∙ e) in
              subst (λ x. Kept s x) last first
          | inr more ↦
              let rest = cycles-Kept n one.0 t (sym (rw (one.1, cycles, more) refl) ∙ e) in
              record {
                test = rest.test ∙ first.test;
                pool = rest.pool ∙ first.pool;
                iring = rest.iring ∙ first.iring;
                not_quit = λ ne. rest.not_quit (first.not_quit ne);
              }
        ]
  ]
