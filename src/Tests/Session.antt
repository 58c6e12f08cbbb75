-- ===== src/Tests/Session.antt =====
-- Sessions of the debugger over the circuit that counts.
use ic_competition.Base.{ℕ, ◌+◌, ◌-◌, ◌^◌, ◌≡◌, ◌↔◌, refl, true, false, some, List, [], ◌∷◌, arith}
use ic_competition.Difftest.{Regs, difftest_step, difftest_checkregs, regs_match}
use ic_competition.Sdb.Watchpoint.{init_wp_pool, new_wp, take_node, scan_wp_diff, scan_loop, nr_wp}
use ic_competition.Sdb.Watchpoint.Chain.{init_wp_pool-IsPool, iota}
use ic_competition.Sim.Memory.{read_inst}
use ic_competition.Sim.Circuit.{
  quit, end_, npctrap, settled, is_exit_status_bad, State, set_npc, Config, run_cycle, single_cycle,
  cycles,
}
use ic_competition.Sim.Exec.{
  iringbuf_push, verdict, hit_state, tested, compare, hits, scan, trace_and_difftest, finish_inst,
  one_inst, execute, cpu_exec,
}
use ic_competition.Sim.Exec.Steps.{none_left, step}
use ic_competition.Sim.Commands.{
  strtok, skip_spaces, cut_word, same_text, find_cmd, cmd_table, set_new_wp, step_inst, handler,
  run_line, carry_on, session, sdb_mainloop, set_wp,
}
use ic_competition.Sim.Commands.Keeps.{Ready}
use ic_competition.Sim.Commands.Ready.{sdb_mainloop-Ready}
use ic_competition.Sim.Commands.Exit.{is_exit_status_bad-sdb_mainloop}
use ic_competition.Sim.Exec.Ends.{Ran}
use ic_competition.Sim.Commands.Stepping.{si_line, session-si}
use ic_competition.Sim.Evaluate.{Libc, reg_str2val, state_expr, state_machine}
use ic_competition.Sim.Evaluate.Registers.{reg_str2val-Named}
use ic_competition.Sim.Evaluate.Values.{p_line, Shows, run_line-Shows}
use ic_competition.Sdb.Expr.Token.{Tokens}
use ic_competition.Sdb.Expr.Grammar.{Ast, number, binary, add, denote, symbol}
use ic_competition.Sdb.Expr.Lexer.Patterns.{posix_match}
use ic_competition.Sdb.Expr.Lexer.Lexemes.{Lexeme, text, register, blank, sign, plus, dec}
use ic_competition.Sdb.Expr.Prefix.{raw_tokens}
use ic_competition.Tests.Simulator.{counter, config, start, expr, goes, after, one_inst-after}

-- The first digit of a number.
abbrev atoi : List ℕ → ℕ
atoi [] = 0
atoi (c ∷ l) = c - b'0'

session-si_example :
    session config counter expr atoi (si_line (b'1' ∷ []) ∷ si_line (b'2' ∷ []) ∷ []) start
    ≡ session config counter expr atoi (si_line (b'3' ∷ []) ∷ []) start
unfolding strtok skip_spaces cut_word
session-si_example =
    session-si config counter expr atoi 1 2 (b'1' ∷ []) (b'2' ∷ []) (b'3' ∷ []) (b'1' ∷ [])
      (b'2' ∷ []) (b'3' ∷ []) [] [] [] [] start (after 1 goes) refl refl refl refl refl refl
      (omega arith) refl (step refl one_inst-after none_left) refl

-- The start with the pool that init_wp_pool() makes, and with a watchpoint.
abbrev ready : State ℕ Regs
ready = record start { pool = init_wp_pool start.pool }

ready-Ready : Ready 100 ready
unfolding init_wp_pool
ready-Ready = record {
  sane = record {
    used = [];
    free = iota 0 nr_wp;
    pool = init_wp_pool-IsPool start.pool;
    room = λ i lt. omega arith;
    ring = omega arith;
  };
  halted = λ e. cc;
}

-- Sets a watchpoint, executes an instruction and quits.
abbrev lines : List (List ℕ)
lines =
    (b'w' ∷ b' ' ∷ b'1' ∷ []) ∷ (b's' ∷ b'i' ∷ []) ∷ (b' ' ∷ []) ∷ (b'q' ∷ []) ∷ (b'c' ∷ []) ∷ []

abbrev watching : State ℕ Regs
watching = record start { pool = take_node (expr start) (init_wp_pool start.pool) 0 (b'1' ∷ []) 0 }

abbrev left : State ℕ Regs
left = set_npc quit (after 1 watching)

session-left : sdb_mainloop config counter expr atoi false lines ready ≡ some (left, set_wp 1 ∷ [])
unfolding sdb_mainloop session carry_on run_line strtok skip_spaces cut_word find_cmd cmd_table
    same_text handler set_new_wp step_inst new_wp init_wp_pool cpu_exec execute one_inst cycles
    single_cycle run_cycle finish_inst read_inst trace_and_difftest compare tested difftest_step
    difftest_checkregs regs_match verdict iringbuf_push scan hits scan_wp_diff scan_loop hit_state
session-left = refl

sdb_mainloop-Ready_example : Ready 95 left
sdb_mainloop-Ready_example =
    sdb_mainloop-Ready 95 config counter expr atoi false lines ready left (set_wp 1 ∷ [])
      ready-Ready session-left

abbrev libc : Libc
libc = record { regexec = posix_match; strtoul16 = λ s. 0; sprintf_u = λ v. b'0' ∷ []; atoi = atoi }

abbrev sum : Ast
sum = binary add (number (b'0' ∷ [])) (number (b'1' ∷ []))

-- $ra +1, where `ra` holds 0
abbrev sum_text : List Lexeme
sum_text = register (b'r' ∷ b'a' ∷ []) 0 ∷ blank 0 ∷ sign plus ∷ dec (b'1' ∷ []) ∷ []

abbrev no_tokens : Tokens
no_tokens i = symbol 0

ra-zero : reg_str2val 0x80000000 (λ i. 0) (b'r' ∷ b'a' ∷ []) ≡ some 0
ra-zero = (reg_str2val-Named 0x80000000 (λ i. 0)).register 1 (omega arith)

-- A simulator without devices.
abbrev bare : Config ℕ
bare = record config { device = false }

run_line-Shows_example :
    Shows
      (run_line bare counter (state_expr libc bare no_tokens) atoi (p_line (text sum_text)) start)
      start
      (denote (state_machine libc bare start) sum)
run_line-Shows_example =
    run_line-Shows bare counter libc no_tokens sum sum_text b'$'
      (b'r' ∷ b'a' ∷ b' ' ∷ b'+' ∷ b'1' ∷ []) start (λ i l. refl) refl (omega arith) refl
      (
        (omega arith, omega arith, (refl, (refl, tt)), ra-zero),
        refl,
        (omega arith, refl, (tt, tt, ((omega arith, omega arith, (refl, tt)), (refl, refl), tt))),
      )
      (unfold raw_tokens in refl) (omega arith, omega arith, tt, tt)

-- Every instruction ends the program, with 0 in a0.
abbrev trapping : Config ℕ
trapping = record config {
  circuit = record config.circuit { cycle = λ n. npctrap 0x80000004 0 (settled (n + 1)) };
}

abbrev trapped : State ℕ Regs
trapped = record (after 1 start) {
  npc = record { state = end_; halt_pc = 0x80000004; halt_ret = 0 };
}

mainloop-trapped : sdb_mainloop trapping counter expr atoi true [] start ≡ some (trapped, [])
unfolding sdb_mainloop cpu_exec execute one_inst cycles single_cycle run_cycle finish_inst read_inst
    trace_and_difftest compare tested difftest_step difftest_checkregs regs_match verdict
    iringbuf_push scan hits scan_wp_diff scan_loop hit_state
mainloop-trapped = refl

is_exit_status_bad-sdb_mainloop_example :
    Ran trapping counter expr (2 ^ 64 - 1) start trapped
    × ((is_exit_status_bad trapped.npc ≡ false)
        ↔ ((trapped.npc.state ≡ end_) × (trapped.npc.halt_ret ≡ 0)))
is_exit_status_bad-sdb_mainloop_example =
    is_exit_status_bad-sdb_mainloop trapping counter expr atoi [] start trapped [] refl
      mainloop-trapped
