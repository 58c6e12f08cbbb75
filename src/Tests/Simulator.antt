-- ===== src/Tests/Simulator.antt =====
-- Runs of the simulator with a circuit that takes one cycle for an instruction.
use ic_competition.Base.{
  ℕ, ◌+◌, ◌*◌, ◌≡◌, ◌≢◌, refl, ◌⊎◌, ◌↔◌, true, false, none, some, List, [], ◌∷◌, arith,
}
use ic_competition.Difftest.{Regs, Reference, difftest_step, difftest_checkregs, regs_match}
use ic_competition.Sdb.Outcome.{Outcome, value}
use ic_competition.Sdb.Watchpoint.{scan_wp_diff, scan_loop}
use ic_competition.Sim.Memory.{Bus, read_inst, pmem_read, pmem_write}
use ic_competition.Sim.Memory.Access.{
  Written, Clocked, pmem_write-Written, pmem_read-Clocked, access_outside, is_clock,
}
use ic_competition.Sim.Circuit.{
  running, stop, settled, Circuit, State, set_npc, Config, run_cycle, single_cycle, cycles,
  exec_one_inst, has_ended,
}
use ic_competition.Sim.Exec.{
  iringbuf_push, verdict, hit_state, tested, compare, hits, scan, trace_and_difftest, finish_inst,
  one_inst, cpu_exec,
}
use ic_competition.Sim.Exec.Resume.{cpu_exec-add}
use ic_competition.Sim.Exec.Ends.{Ran, cpu_exec-cases}
use ic_competition.Sim.Exec.Checked.{Agreed, one_inst-Agreed}
use ic_competition.Sim.Ftrace.{
  Func, Entry, Decode, Ftrace, ret_from, call_of, call, ret, ftrace_print, ftrace_rcd, recorded,
  fringbuf_push, record_jump, jump_of, jump_to, return_jump, pc_compare, pc_compare_off,
}
use ic_competition.Sim.Ftrace.Log.{newest}
use ic_competition.Sim.Ftrace.History.{Nested, opened, countdown, marks, Tells}
use ic_competition.Sim.Ftrace.Nesting.{fresh, record_run, ftrace_print-record_run}
use ic_competition.Sim.Exec.Steps.{none_left, step}

abbrev pub bus : Bus
bus = record { pmem = λ a. 7; rtc_0 = 0; rtc_1 = 0; serial = []; skipped = false }

pmem_write-Written_example : Written true 0x80000004 0x1234 3 bus
pmem_write-Written_example = pmem_write-Written true 0x80000004 0x1234 3 bus (omega arith) refl

pmem_read-Clocked_example : Clocked 5000000000 5000000009 bus
pmem_read-Clocked_example = pmem_read-Clocked 5000000000 5000000009 bus

access_outside_example :
    ((pmem_read true 0 0xa0000000 bus ≡ none) ↔ ((true ≡ false) ⊎ (is_clock 0xa0000000 ≡ false)))
    × ((pmem_write true 0xa0000000 1 1 bus ≡ none)
        ↔ ((true ≡ false) ⊎ (◌≢◌ {A = ℕ} 0xa0000000 0x10000000)))
access_outside_example = access_outside true 0 0xa0000000 1 1 bus refl

-- Every instruction is 7, takes one cycle and only counts the PC on.
abbrev pub counting : Circuit ℕ
counting = record {
  cycle = λ n. settled (n + 1);
  read_pc = λ n. 0x80000000 + 4 * n;
  read_reg = λ n i. 0;
  read_state = λ n. 1;
}

abbrev pub counter : Reference Regs
counter = record { exec_one = λ q. record q { pc = q.pc + 4 }; to_dut = λ q. q; to_ref = λ x q. x }

abbrev pub config : Config ℕ
config = record {
  device = true;
  difftest = true;
  watchpoint = true;
  circuit = counting;
  get_time = λ n. n;
  logbuf = λ pc inst. [];
}

abbrev pub start : State ℕ Regs
start = record {
  circuit = 0;
  bus = bus;
  test = record {
    is_skip_ref = false;
    is_skip_ref_r = false;
    n_ignore_first = true;
    cpu = record { gpr = λ i. 0; pc = 0x80000000 };
    ref = record { gpr = λ i. 0; pc = 0x80000000 };
    aborted = none;
  };
  npc = record { state = stop; halt_pc = 0; halt_ret = 1 };
  pool = record {
    no = λ i. i;
    next = λ i. none;
    e_str = λ i. [];
    pre_result = λ i. 0;
    head = none;
    free_ = some 0;
  };
  iring = record { buf = λ i. []; ptr = 0 };
  nr_guest_inst = 0;
  nr_clk_tick = 0;
}

abbrev pub expr : State ℕ Regs → List ℕ → Outcome
expr s e = value 0

abbrev pub goes : State ℕ Regs
goes = set_npc running start

-- The two states of the run that follow, as the code leaves them.
abbrev pub after : ℕ → State ℕ Regs → State ℕ Regs
after n s = record s {
  circuit = n;
  test = record s.test {
    cpu = record { gpr = λ i. 0; pc = 0x80000000 + 4 * n };
    ref = record { gpr = λ i. 0; pc = 0x80000000 + 4 * n };
  };
  iring = iringbuf_push [] s.iring;
  nr_guest_inst = n;
  nr_clk_tick = n;
}

abbrev finished : State ℕ Regs
finished = record goes { circuit = 1; nr_clk_tick = 1 }

exec_one_inst-finished : exec_one_inst config goes ≡ some finished
unfolding cycles single_cycle run_cycle
exec_one_inst-finished = refl

pub one_inst-after : one_inst config counter expr goes ≡ some (after 1 goes)
unfolding cycles single_cycle run_cycle one_inst finish_inst read_inst trace_and_difftest compare
    tested difftest_step difftest_checkregs regs_match verdict iringbuf_push scan hits scan_wp_diff
    scan_loop hit_state
one_inst-after = refl

one_inst-Agreed_example : Agreed config counter expr goes finished (after 1 goes)
one_inst-Agreed_example =
    one_inst-Agreed config counter expr goes finished (after 1 goes) refl refl refl
      exec_one_inst-finished refl one_inst-after refl

cpu_exec-add_example :
    (cpu_exec config counter expr 1 start ≡ some (set_npc stop (after 1 goes)))
    × (cpu_exec config counter expr 2 (set_npc stop (after 1 goes))
        ≡ cpu_exec config counter expr 3 start)
cpu_exec-add_example =
    cpu_exec-add config counter expr 1 2 start (after 1 goes) refl
      (step refl one_inst-after none_left) refl

once : cpu_exec config counter expr 1 start ≡ some (set_npc stop (after 1 goes))
once =
    (cpu_exec-add config counter expr 1 2 start (after 1 goes) refl
      (step refl one_inst-after none_left) refl).0

cpu_exec-cases_example :
    ((has_ended start.npc.state ≡ true) × (set_npc stop (after 1 goes) ≡ start))
    ⊎ ((has_ended start.npc.state ≡ false)
        × Ran config counter expr 1 start (set_npc stop (after 1 goes)))
cpu_exec-cases_example =
    cpu_exec-cases config counter expr 1 start (set_npc stop (after 1 goes)) once

-- `main` at 0x80000000 calls `f` at 0x80000100, which returns behind the call.
abbrev funcs : List Func
funcs =
    record { name = b'm' ∷ []; addr = 0x80000000; size = 0x100 }
    ∷ record { name = b'f' ∷ []; addr = 0x80000100; size = 0x40 }
    ∷ []

abbrev there_and_back : List Decode
there_and_back =
    record { pc = 0x80000010; dnpc = 0x80000100; inst = 0x0f0000ef }
    ∷ record { pc = 0x80000104; dnpc = 0x80000014; inst = 0x00008067 }
    ∷ []

abbrev traced : Ftrace
traced = record {
  funcs = funcs;
  ring =
      fringbuf_push
        (record { num = 0; pc = 0x80000104; message = ret_from (b'f' ∷ []); kind = ret })
        (fringbuf_push
          (record {
            num = 0;
            pc = 0x80000010;
            message = call_of (b'f' ∷ []) 0x80000100;
            kind = call;
          })
          (fresh funcs).ring);
  depth = 0;
}

record_run-traced : record_run there_and_back (fresh funcs) ≡ recorded traced
unfolding ftrace_rcd record_jump jump_of jump_to return_jump pc_compare pc_compare_off fringbuf_push
record_run-traced = refl

ftrace_print-record_run_example :
    (history : List Entry) × Tells funcs there_and_back [] (marks history)
    × Nested history
    × (opened history ≡ countdown traced.depth)
    × (ftrace_print traced ≡ newest 50 history)
ftrace_print-record_run_example =
    ftrace_print-record_run funcs there_and_back traced (omega arith) record_run-traced
