-- ===== src/Sim/Exec.antt =====
-- The execution of core/csrc/cpu/cpu-exec.cpp: instruction by instruction, with the traces and tests
-- behind each. The function trace is switched off.
pub mod Steps
pub mod Resume
pub mod Cycles
pub mod Ends
pub mod Checked
pub mod Sane
use ic_competition.Base.{
  ℕ, zero, suc, ◌+◌, ◌%◌, ◌^◌, ◌<◌, ◌==◌, ltb, if◌then◌else◌, Bool, true, false, ◌||◌, Option, none,
  some, List,
}
use ic_competition.Difftest.{Test, Reference, difftest_step, difftest_skip_ref}
use ic_competition.Sdb.Outcome.{Outcome}
use ic_competition.Sdb.Watchpoint.{Pool, scan_wp_diff, Scanned, scanned, asserted, out_of_fuel}
use ic_competition.Sim.Memory.{read_inst}
use ic_competition.Sim.Circuit.{
  Npc, running, quit, stop, abort, end_, NpcState, is_running, is_end, Circuit, Iring, State,
  set_npc, Config, exec_one_inst, settle, has_ended,
}

-- `if (++iring_ptr >= IRING_SIZE) iring_ptr = 0; memcpy(iringbuf[iring_ptr], ibuf, 128);`
unfoldable pub iringbuf_push : List ℕ → Iring → Iring
iringbuf_push line i =
    let ptr = if ltb (i.ptr + 1) 16 then i.ptr + 1 else 0 in
    record { buf = λ j. if j == ptr then line else i.buf j; ptr = ptr }

-- What checkregs() makes of the state when the test is aborted at a PC.
unfoldable pub verdict : Option ℕ → NpcState → NpcState
verdict none n = n
verdict (some p) n = record n { state = abort; halt_pc = p }

-- `npc_state.state != NPC_END ? NPC_STOP : NPC_END`, where a watchpoint was hit
unfoldable pub hit_state : Bool → Npc → Npc
hit_state true n = if is_end n then end_ else stop
hit_state false n = n

module _ {c r : Type 0} (cfg : Config c) (reference : Reference r) where
  -- The flag that the memory set is the test's.
  unfoldable pub tested : ℕ → State c r → Test r
  tested pc s =
      let t = if s.bus.skipped then difftest_skip_ref reference s.test else s.test in
      difftest_step reference (cfg.circuit.read_reg s.circuit) pc (record t { aborted = none })

  unfoldable pub compare : ℕ → State c r → State c r
  compare pc s = record s {
    test = tested pc s;
    bus = record s.bus { skipped = false };
    npc = verdict (tested pc s).aborted s.npc;
  }

  module _ (expr : State c r → List ℕ → Outcome) where
    unfoldable pub hits : {e : List ℕ → Outcome} → Scanned e → State c r → Option (State c r)
    hits (scanned p hit) s =
        some (record s { pool = p; npc = record s.npc { state = hit_state hit s.npc.state } })
    hits asserted s = none
    hits out_of_fuel s = none

    unfoldable pub scan : State c r → Option (State c r)
    scan s = hits (scan_wp_diff (expr s) 33 s.pool) s

    unfoldable pub trace_and_difftest : ℕ → List ℕ → State c r → Option (State c r)
    trace_and_difftest pc line s =
        let s1 = if cfg.difftest then compare pc s else s in
        let s2 = record s1 { iring = iringbuf_push line s1.iring } in
        if cfg.watchpoint then scan s2 else some s2

    -- The fetch of exec_once(), the count, and the traces.
    unfoldable pub finish_inst : State c r → Option (State c r)
    finish_inst s =
        let pc = cfg.circuit.read_pc s.circuit in
        elim (read_inst pc s.bus) [
          | none ↦ none
          | some inst ↦
              trace_and_difftest pc (cfg.logbuf pc inst)
                (record s { nr_guest_inst = (s.nr_guest_inst + 1) % 2 ^ 64 })
        ]

    -- One round of execute().
    unfoldable pub one_inst : State c r → Option (State c r)
    one_inst s = elim (exec_one_inst cfg s) [ none ↦ none | some t ↦ finish_inst t ]

    unfoldable pub execute : ℕ → State c r → Option (State c r)
    execute zero s = some s
    execute (suc n) s = elim (one_inst s) [
      | none ↦ none
      | some t ↦ elim (is_running t.npc.state) [ true ↦ execute n t | false ↦ some t ]
    ]

    -- `g_print_step` only says whether puts() shows the lines of the instructions: as all they
    -- print, it is left out.
    unfoldable pub cpu_exec : ℕ → State c r → Option (State c r)
    cpu_exec n s = elim (has_ended s.npc.state) [
      | true ↦ some s
      | false ↦ elim (execute n (set_npc running s)) [ none ↦ none | some t ↦ some (settle t) ]
    ]
