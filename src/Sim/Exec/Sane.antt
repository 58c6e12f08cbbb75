-- ===== src/Sim/Exec/Sane.antt =====
-- Executing keeps the pool of watchpoints and the ring of instructions well formed.
use ic_competition.Base.{
  ℕ, zero, suc, ◌+◌, ◌%◌, ◌^◌, ◌<◌, ◌≡◌, refl, sym, ap, ◌∙◌, subst, ◌⊎◌, inl, inr, ◌==◌, Bool, true,
  false, if◌then◌else◌, Option, none, some, List, arith, Bool-cases, Option-cases,
}
use mathlib.Core.Option.{some-injective, none-ne-some}
use ic_competition.Difftest.{Reference}
use ic_competition.Sdb.Outcome.{Outcome, value, failed, aborted}
use ic_competition.Sdb.Watchpoint.{
  Pool, scan_loop, scan_wp_diff, Scanned, scanned, asserted, out_of_fuel, upd,
}
use ic_competition.Sdb.Watchpoint.Chain.{IsPool}
use ic_competition.Sdb.Watchpoint.Create.{HasRoom}
use ic_competition.Sim.Memory.{read_inst}
use ic_competition.Sim.Circuit.{running, is_running, State, set_npc, Config, exec_one_inst, settle}
use ic_competition.Sim.Exec.{
  hits, iringbuf_push, compare, scan, trace_and_difftest, finish_inst, one_inst, cpu_exec,
}
use ic_competition.Sim.Exec.Cycles.{cycles-Kept}
use ic_competition.Sim.Exec.Steps.{Steps, none_left, step}
use ic_competition.Sim.Exec.Ends.{cpu_exec-cases}

-- Only recorded values differ.
abbrev pub Watched : Pool → Pool → Type 0
Watched p q = (pre : ℕ → ℕ) × (q ≡ record p { pre_result = pre })

Watched-IsPool :
    {p q : Pool} {used free : List ℕ} → Watched p q → IsPool p used free → IsPool q used free
Watched-IsPool {p} {q} {used} {free} w i =
    subst (λ x. IsPool x used free) (sym w.1)
      (record {
        used_chain = i.used_chain;
        free_chain = i.free_chain;
        partition = i.partition;
        size = i.size;
        falling = i.falling;
      })

scanned-injective :
    {e : List ℕ → Outcome} (p q : Pool) (a b : Bool)
    → ◌≡◌ {A = Scanned e} (scanned p a) (scanned q b)
    → p ≡ q
scanned-injective p q a b e = cc

pub Outcome-cases : (o : Outcome) → ((v : ℕ) × (o ≡ value v)) ⊎ ((o ≡ failed) ⊎ (o ≡ aborted))
Outcome-cases (value v) = inl (v, refl)
Outcome-cases failed = inr (inl refl)
Outcome-cases aborted = inr (inr refl)

module _ (expr : List ℕ → Outcome) where
  scan_loop-Watched :
      (k : ℕ) (p q : Pool) (current : Option ℕ) (hit : Bool)
      → scan_loop expr k p current ≡ scanned q hit
      → Watched p q
  unfolding scan_loop
  scan_loop-Watched zero p q current hit e = cc
  scan_loop-Watched (suc k) p q none hit e = (p.pre_result, sym (scanned-injective p q false hit e))
  scan_loop-Watched (suc k) p q (some c) hit e = elim (Outcome-cases (expr (p.e_str c))) [
    | inl got ↦ elim (Bool-cases (p.pre_result c == got.0)) [
      | inl same ↦
          scan_loop-Watched k p q (p.next c) hit (sym (rw (got.1, scan_loop, same) refl) ∙ e)
      | inr differs ↦
          let changed = record p { pre_result = upd p.pre_result c got.0 } in
          (
            changed.pre_result,
            sym (
                scanned-injective changed q true hit
                  (sym (rw (got.1, scan_loop, differs) refl) ∙ e)),
          )
    ]
    | inr (inl f) ↦
        let stops : ◌≡◌ {A = Scanned expr} asserted (scanned q hit) =
          sym (rw (f, scan_loop) refl) ∙ e in
        cc
    | inr (inr a) ↦
        let stops : ◌≡◌ {A = Scanned expr} asserted (scanned q hit) =
          sym (rw (a, scan_loop) refl) ∙ e in
        cc
  ]

-- The pool is a pool with room for `n` more numbers, and the pointer of the ring is in the ring.
pub record Sane (n : ℕ) {c r : Type 0} (s : State c r) : Type 0 where
  pub used : List ℕ
  pub free : List ℕ
  pub pool : IsPool s.pool used free
  pub room : HasRoom n s.pool
  pub ring : s.iring.ptr < 16

iringbuf_push-ring :
    (line : List ℕ) {c r : Type 0} (s : State c r) → (iringbuf_push line s.iring).ptr < 16
unfolding iringbuf_push
iringbuf_push-ring line s = ground arith

-- What a step may do to a sane state.
Sane-step :
    (n : ℕ) {c r : Type 0} (s t : State c r)
    → Watched s.pool t.pool
    → t.iring.ptr < 16
    → Sane n s
    → Sane n t
Sane-step n s t w ring i = record {
  used = i.used;
  free = i.free;
  pool = Watched-IsPool w i.pool;
  room = subst (λ p. HasRoom n p) (sym w.1) i.room;
  ring = ring;
}

Watched-same : {p q : Pool} → q ≡ p → Watched p q
Watched-same {p} {q} e = (p.pre_result, e)

module _ (room : ℕ) {c r : Type 0} (cfg : Config c) (reference : Reference r)
    (expr : State c r → List ℕ → Outcome) where
  hits-Watched :
      (s t : State c r) (x : Scanned (expr s))
      → scan_wp_diff (expr s) 33 s.pool ≡ x
      → hits cfg reference expr x s ≡ some t
      → Watched s.pool t.pool × (t.iring ≡ s.iring)
  unfolding hits scan_wp_diff
  hits-Watched s t (scanned p hit) done e =
      let same = some-injective _ t e in
      let w = scan_loop-Watched (expr s) 33 s.pool p s.pool.head hit done in
      ((w.0, ap (λ x. x.pool) (sym same) ∙ w.1), ap (λ x. x.iring) (sym same))
  hits-Watched s t asserted done e = absurd (none-ne-some t e)
  hits-Watched s t out_of_fuel done e = absurd (none-ne-some t e)

  trace-Sane :
      (pc : ℕ) (line : List ℕ) (s t : State c r)
      → trace_and_difftest cfg reference expr pc line s ≡ some t
      → Sane room s
      → Sane room t
  unfolding trace_and_difftest scan compare
  trace-Sane pc line s t e i =
      let s1 = if cfg.difftest then compare cfg reference pc s else s in
      let s2 = record s1 { iring = iringbuf_push line s1.iring } in
      let kept : s1.pool ≡ s.pool =
        elim cfg.difftest as (λ b. (if b then compare cfg reference pc s else s).pool ≡ s.pool) [
          | true ↦ refl
          | false ↦ refl
        ] in
      let sane2 : Sane room s2 =
        Sane-step room s s2 (Watched-same kept) (iringbuf_push-ring line s1) i in
      elim (Bool-cases cfg.watchpoint) [
        | inl on ↦
            let w =
              hits-Watched s2 t (scan_wp_diff (expr s2) 33 s2.pool) refl (sym (rw on refl) ∙ e) in
            Sane-step room s2 t w.0 (subst (λ x. x.ptr < 16) (sym w.1) sane2.ring) sane2
        | inr off ↦ subst (λ x. Sane room x) (some-injective s2 t (sym (rw off refl) ∙ e)) sane2
      ]

  finish-Sane :
      (s t : State c r) → finish_inst cfg reference expr s ≡ some t → Sane room s → Sane room t
  unfolding finish_inst
  finish-Sane s t e i =
      let pc = cfg.circuit.read_pc s.circuit in
      elim (Option-cases (read_inst pc s.bus)) [
        | inl panics ↦ absurd (none-ne-some t (sym (rw (panics, finish_inst) refl) ∙ e))
        | inr inst ↦
            let s1 = record s { nr_guest_inst = (s.nr_guest_inst + 1) % 2 ^ 64 } in
            trace-Sane pc (cfg.logbuf pc inst.0) s1 t (sym (rw (inst.1, finish_inst) refl) ∙ e)
              (Sane-step room s s1 (Watched-same refl) i.ring i)
      ]

  one-Sane : (s t : State c r) → one_inst cfg reference expr s ≡ some t → Sane room s → Sane room t
  unfolding one_inst
  one-Sane s t e i = elim (Option-cases (exec_one_inst cfg s)) [
    | inl panics ↦ absurd (none-ne-some t (sym (rw (panics, one_inst) refl) ∙ e))
    | inr done ↦
        let k = cycles-Kept cfg 40 s done.0 done.1 in
        finish-Sane done.0 t (sym (rw (done.1, one_inst) refl) ∙ e) (
          Sane-step room s done.0 (Watched-same k.pool)
            (subst (λ x. x.ptr < 16) (sym k.iring) i.ring) i)
  ]

  Steps-Sane :
      {k : ℕ} {s t : State c r} → Steps cfg reference expr k s t → Sane room s → Sane room t
  Steps-Sane none_left i = i
  Steps-Sane (step {s} {t} goes one rest) i = Steps-Sane rest (one-Sane s t one i)

  settle-Sane : (s : State c r) → Sane room s → Sane room (settle s)
  settle-Sane s i = elim (Bool-cases (is_running s.npc.state)) [
    | inl on ↦
        rw on (record { used = i.used; free = i.free; pool = i.pool; room = i.room; ring = i.ring })
    | inr off ↦ rw off i
  ]

  pub cpu_exec-Sane :
      (n : ℕ) (s t : State c r)
      → cpu_exec cfg reference expr n s ≡ some t
      → Sane room s
      → Sane room t
  cpu_exec-Sane n s t e i = elim (cpu_exec-cases cfg reference expr n s t e) [
    | inl ended ↦ subst (λ x. Sane room x) (sym ended.1) i
    | inr ran ↦
        let started : Sane room (set_npc running s) = record {
          used = i.used;
          free = i.free;
          pool = i.pool;
          room = i.room;
          ring = i.ring;
        } in
        let last = Steps-Sane ran.1.executed.steps started in
        subst (λ x. Sane room x) (sym ran.1.settled) (settle-Sane ran.1.last last)
  ]
