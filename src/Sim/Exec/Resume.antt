-- ===== src/Sim/Exec/Resume.antt =====
-- Executing in two parts is executing at once.
use ic_competition.Base.{
  ℕ, zero, suc, ◌+◌, ◌≡◌, refl, sym, ap, ◌∙◌, inl, inr, true, false, some, List, arith, Bool-cases,
  Option-cases,
}
use ic_competition.Difftest.{Reference}
use ic_competition.Sdb.Outcome.{Outcome}
use ic_competition.Sim.Circuit.{
  Npc, running, quit, stop, abort, end_, is_running, State, set_npc, Config, has_ended,
}
use ic_competition.Sim.Exec.Steps.{Steps, none_left, step}
use ic_competition.Sim.Exec.{one_inst, execute, cpu_exec}
use mathlib.Core.Option.{some-injective, none-ne-some}

is_running-eq : (n : Npc) → is_running n ≡ true → n ≡ running
is_running-eq running h = refl
is_running-eq quit h = cc
is_running-eq stop h = cc
is_running-eq abort h = cc
is_running-eq end_ h = cc

has_ended-running : (n : Npc) → is_running n ≡ true → has_ended n ≡ false
has_ended-running running h = refl
has_ended-running quit h = cc
has_ended-running stop h = cc
has_ended-running abort h = cc
has_ended-running end_ h = cc

module _ {c r : Type 0} (cfg : Config c) (reference : Reference r)
    (expr : State c r → List ℕ → Outcome) where
  execute-add :
      (m n : ℕ) (s t : State c r)
      → execute cfg reference expr m s ≡ some t
      → is_running t.npc.state ≡ true
      → execute cfg reference expr (m + n) s ≡ execute cfg reference expr n t
  unfolding execute
  execute-add zero n s t e on =
      let same : zero + n ≡ n = omega arith in
      rw same (ap (execute cfg reference expr n) (some-injective s t e))
  execute-add (suc m) n s t e on =
      let next : suc m + n ≡ suc (m + n) = omega arith in
      rw next (elim (Option-cases (one_inst cfg reference expr s)) [
        | inl panics ↦ absurd (none-ne-some t (sym (rw (panics, execute) refl) ∙ e))
        | inr one ↦ elim (Bool-cases (is_running one.0.npc.state)) [
          | inl goes ↦
              rw (one.1, execute, goes)
                (execute-add m n one.0 t (sym (rw (one.1, execute, goes) refl) ∙ e) on)
          | inr halts ↦
              let last = some-injective one.0 t (sym (rw (one.1, execute, halts) refl) ∙ e) in
              let off : is_running t.npc.state ≡ false =
                ap (λ x. is_running x.npc.state) (sym last) ∙ halts in
              absurd (ground arith)
        ]
      ])

  Steps-start :
      {k : ℕ} {s t : State c r}
      → Steps cfg reference expr k s t
      → is_running t.npc.state ≡ true
      → is_running s.npc.state ≡ true
  Steps-start none_left on = on
  Steps-start (step goes one rest) on = goes

  Steps-execute :
      {k : ℕ} {s t : State c r}
      → Steps cfg reference expr k s t
      → is_running t.npc.state ≡ true
      → execute cfg reference expr k s ≡ some t
  unfolding execute
  Steps-execute none_left on = refl
  Steps-execute {t} (step {t = next} goes one rest) on =
      elim (Bool-cases (is_running next.npc.state)) [
        | inl more ↦ rw (one, execute, more) (Steps-execute rest on)
        | inr halts ↦ let goes_on = Steps-start rest on in absurd (ground arith)
      ]

  -- A simulator that has not ended, and that can execute `m` instructions and still run: executing
  -- `m` instructions stops it, and executing `n` more leaves it as executing `m + n` at once does.
  pub cpu_exec-add :
      (m n : ℕ) (s t : State c r)
      → has_ended s.npc.state ≡ false
      → Steps cfg reference expr m (set_npc running s) t
      → is_running t.npc.state ≡ true
      → (cpu_exec cfg reference expr m s ≡ some (set_npc stop t))
        × (cpu_exec cfg reference expr n (set_npc stop t) ≡ cpu_exec cfg reference expr (m + n) s)
  unfolding cpu_exec
  cpu_exec-add m n s t going steps on =
      let run = Steps-execute steps on in
      let both = execute-add m n (set_npc running s) t run on in
      let again : set_npc running (set_npc stop t) ≡ t =
        ap (λ x. record t { npc = record t.npc { state = x } })
          (sym (is_running-eq t.npc.state on)) in
      (rw (cpu_exec, going, run, on), rw (cpu_exec, going, again, both))
