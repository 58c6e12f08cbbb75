-- ===== src/Sim/Commands/Keeps.antt =====
-- Every handler of the debugger keeps the watchpoints and the ring of instructions in order.
use ic_competition.Base.{
  ℕ, zero, suc, ◌+◌, ◌-◌, ◌*◌, ◌/◌, ◌%◌, ◌^◌, ◌≤◌, ◌≢◌, sym, subst, inl, inr, Option, none, some,
  List, [], ◌∷◌, Option-cases, arith,
}
use ic_competition.Difftest.{Reference}
use ic_competition.Sdb.Outcome.{Outcome}
use ic_competition.Sdb.Watchpoint.{Pool, new_wp, delete_wp}
use ic_competition.Sdb.Watchpoint.Chain.{IsPool}
use ic_competition.Sdb.Watchpoint.Create.{HasRoom}
use ic_competition.Sim.Memory.{pmem_read}
use ic_competition.Sim.Circuit.{running, State, Config}
use ic_competition.Sim.Exec.{cpu_exec}
use ic_competition.Sim.Exec.Ends.{cpu_exec-cases}
use ic_competition.Sim.Exec.Sane.{Sane, cpu_exec-Sane, Outcome-cases}
use ic_competition.Sim.Commands.{
  Command, cmd_help, cmd_c, cmd_q, cmd_si, cmd_info, cmd_x, cmd_p, cmd_w, cmd_d, cmd_t, Printed,
  Done, goes, leaves, fails, executed, printed, strtok, find_cmd, cmd_table, step_inst, scan_memory,
  examine, print_expr, set_new_wp, delete, handler, run_line, word, extend,
}
use ic_competition.Sim.Commands.Pools.{new_wp-pool, delete_wp-pool, Created-cases}

-- The watchpoints form a pool with room for `n` more numbers, the ring of instructions is in order,
-- and nothing runs.
pub record Ready (n : ℕ) {c r : Type 0} (s : State c r) : Type 0 where
  pub sane : Sane n s
  pub halted : s.npc.state ≢ running

-- A handler that returns leaves such a state.
abbrev pub Keeps : ℕ → {c r : Type 0} → Done (State c r) → Type 0
Keeps n (goes t out) = Ready n t
Keeps n (leaves t) = Ready n t
Keeps n fails = Unit {0}

-- A state with another pool that is one, and another memory.
Ready-pool :
    (m n : ℕ) {c r : Type 0} (s : State c r) (p : Pool)
    → ((used : List ℕ) × (free : List ℕ) × IsPool p used free × HasRoom n p)
    → Ready m s
    → Ready n (record s { pool = p })
Ready-pool m n s p (used, free, pool, room) i = record {
  sane = record { used = used; free = free; pool = pool; room = room; ring = i.sane.ring };
  halted = i.halted;
}

-- Room for more is room for less.
pub Ready-less : (m n : ℕ) {c r : Type 0} (s : State c r) → n ≤ m → Ready m s → Ready n s
Ready-less m n s le i = record {
  sane = record {
    used = i.sane.used;
    free = i.sane.free;
    pool = i.sane.pool;
    room = λ j lt. let small = i.sane.room j lt in omega arith;
    ring = i.sane.ring;
  };
  halted = i.halted;
}

module _ (room : ℕ) {c r : Type 0} (cfg : Config c) (reference : Reference r)
    (expr : State c r → List ℕ → Outcome) (atoi : List ℕ → ℕ) where
  less : (s : State c r) → Ready (suc room) s → Ready room s
  less s i = Ready-less (suc room) room s (omega arith) i

  pub executed-Keeps :
      (n : ℕ) (s : State c r)
      → Ready room s
      → Keeps room (executed (cpu_exec cfg reference expr n s))
  executed-Keeps n s i = elim (Option-cases (cpu_exec cfg reference expr n s)) [
    | inl panics ↦ rw panics tt
    | inr got ↦
        let sane = cpu_exec-Sane room cfg reference expr n s got.0 got.1 i.sane in
        let halted : got.0.npc.state ≢ running =
          elim (cpu_exec-cases cfg reference expr n s got.0 got.1) [
            | inl ended ↦ subst (λ x. x.npc.state ≢ running) (sym ended.1) i.halted
            | inr ran ↦ ran.1.halted.0
          ] in
        rw got.1 (record { sane = sane; halted = halted })
  ]

  listed-Keeps :
      (x : Option (State c r × List Printed)) (w : Printed)
      → Keeps room (printed x)
      → Keeps room (
          printed (elim x as (λ y. Option (State c r × List Printed)) [
            | none ↦ none
            | some out ↦ some (out.0, w ∷ out.1)
          ]))
  listed-Keeps none w k = tt
  listed-Keeps (some (t, out)) w k = k

  scan_memory-Keeps :
      (n i base : ℕ) (s : State c r)
      → Ready room s
      → Keeps room (printed (scan_memory cfg reference expr atoi n i base s))
  unfolding scan_memory
  scan_memory-Keeps zero i base s ready = ready
  scan_memory-Keeps (suc n) i base s ready =
      let addr = (i * 4 + base) % 2 ^ 32 in
      elim (Option-cases (pmem_read cfg.device (cfg.get_time s.nr_clk_tick) addr s.bus)) [
        | inl panics ↦ rw (panics, scan_memory) tt
        | inr got ↦
            let s1 = record s { bus = got.0.1 } in
            let ready1 : Ready room s1 = record {
              sane = record {
                used = ready.sane.used;
                free = ready.sane.free;
                pool = ready.sane.pool;
                room = ready.sane.room;
                ring = ready.sane.ring;
              };
              halted = ready.halted;
            } in
            let rest = scan_memory-Keeps n (i + 1) base s1 ready1 in
            rw (got.1, scan_memory)
              (listed-Keeps (scan_memory cfg reference expr atoi n (i + 1) base s1)
                (word i (addr / 4 * 4) got.0.0) rest)
      ]

  examine-Keeps :
      (args : List ℕ) (s : State c r)
      → Ready room s
      → Keeps room (examine cfg reference expr atoi args s)
  unfolding examine
  examine-Keeps args s i = elim (Option-cases (strtok args)) [
    | inl none_there ↦ rw (none_there, examine) i
    | inr first ↦ elim (Option-cases (strtok first.0.1)) [
      | inl none_there ↦ rw (first.1, examine, none_there) i
      | inr second ↦ elim (Outcome-cases (expr s second.0.0)) [
        | inl got ↦
            rw (first.1, examine, second.1, got.1) (scan_memory-Keeps (atoi first.0.0) 0 got.0 s i)
        | inr (inl f) ↦ rw (first.1, examine, second.1, f) i
        | inr (inr f) ↦ rw (first.1, examine, second.1, f) tt
      ]
    ]
  ]

  print_expr-Keeps :
      (args : List ℕ) (s : State c r)
      → Ready room s
      → Keeps room (print_expr cfg reference expr atoi args s)
  unfolding print_expr
  print_expr-Keeps [] s i = tt
  print_expr-Keeps (a ∷ args) s i = elim (Outcome-cases (expr s (a ∷ args))) [
    | inl got ↦ rw (got.1, print_expr) i
    | inr (inl f) ↦ rw (f, print_expr) i
    | inr (inr f) ↦ rw (f, print_expr) tt
  ]

  set_new_wp-Keeps :
      (args : List ℕ) (s : State c r)
      → Ready (suc room) s
      → Keeps room (set_new_wp cfg reference expr atoi args s)
  unfolding set_new_wp
  set_new_wp-Keeps [] s i = tt
  set_new_wp-Keeps (a ∷ args) s i = elim (Created-cases (new_wp (expr s) s.pool (a ∷ args))) [
    | inl (w, p, made) ↦
        let pool =
          new_wp-pool (expr s) room s.pool p i.sane.used i.sane.free (a ∷ args) w i.sane.pool
            i.sane.room made in
        rw (made, set_new_wp) (Ready-pool (suc room) room s p pool i)
    | inr (inl f) ↦ rw (f, set_new_wp) (less s i)
    | inr (inr f) ↦ rw (f, set_new_wp) tt
  ]

  delete-Keeps :
      (args : List ℕ) (s : State c r)
      → Ready room s
      → Keeps room (delete cfg reference expr atoi args s)
  unfolding delete
  delete-Keeps args s i = elim (Option-cases (strtok args)) [
    | inl none_there ↦ rw (none_there, delete) i
    | inr first ↦ elim (Option-cases (delete_wp 33 s.pool (atoi first.0.0))) [
      | inl out ↦ rw (first.1, delete, out) tt
      | inr got ↦
          let pool =
            delete_wp-pool room s.pool got.0 i.sane.used i.sane.free (atoi first.0.0) i.sane.pool
              i.sane.room got.1 in
          rw (first.1, delete, got.1) (Ready-pool room room s got.0 pool i)
    ]
  ]

  step_inst-Keeps :
      (args : List ℕ) (s : State c r)
      → Ready room s
      → Keeps room (step_inst cfg reference expr atoi args s)
  unfolding step_inst
  step_inst-Keeps args s i = elim (Option-cases (strtok args)) [
    | inl none_there ↦ rw (none_there, step_inst) (executed-Keeps 1 s i)
    | inr first ↦ rw (first.1, step_inst) (executed-Keeps (extend (atoi first.0.0)) s i)
  ]

  handler-Keeps :
      (cmd : Command) (args : List ℕ) (s : State c r)
      → Ready (suc room) s
      → Keeps room (handler cfg reference expr atoi cmd args s)
  unfolding handler
  handler-Keeps cmd_help args s i = less s i
  handler-Keeps cmd_c args s i = executed-Keeps (2 ^ 64 - 1) s (less s i)
  handler-Keeps cmd_q args s i = record {
    sane = record {
      used = i.sane.used;
      free = i.sane.free;
      pool = i.sane.pool;
      room = (less s i).sane.room;
      ring = i.sane.ring;
    };
    halted = λ e. cc;
  }
  handler-Keeps cmd_si args s i = step_inst-Keeps args s (less s i)
  handler-Keeps cmd_info args s i = less s i
  handler-Keeps cmd_x args s i = examine-Keeps args s (less s i)
  handler-Keeps cmd_p args s i = print_expr-Keeps args s (less s i)
  handler-Keeps cmd_w args s i = set_new_wp-Keeps args s i
  handler-Keeps cmd_d args s i = delete-Keeps args s (less s i)
  handler-Keeps cmd_t args s i = less s i

  pub run_line-Keeps :
      (line : List ℕ) (s : State c r)
      → Ready (suc room) s
      → Keeps room (run_line cfg reference expr atoi line s)
  unfolding run_line
  run_line-Keeps line s i = elim (Option-cases (strtok line)) [
    | inl blank ↦ rw (blank, run_line) (less s i)
    | inr first ↦ elim (Option-cases (find_cmd first.0.0 cmd_table)) [
      | inl unknown ↦ rw (first.1, run_line, unknown) (less s i)
      | inr found ↦ rw (first.1, run_line, found.1) (handler-Keeps found.0 first.0.1 s i)
    ]
  ]
