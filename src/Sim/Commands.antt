-- ===== src/Sim/Commands.antt =====
-- The commands of core/csrc/monitor/sdb/sdb.cpp. A line is the list of its characters, and what
-- strtok(NULL, " ") goes on with is the text behind the space that ended the last word; the reading
-- of lines and the texts of what is printed are left out. `atoi`, the host's, gives an `int` as its
-- bits.
pub mod Pools
pub mod Keeps
pub mod Ready
pub mod Stepping
pub mod Exit
use ic_competition.Base.{
  ℕ, zero, suc, ◌+◌, ◌-◌, ◌*◌, ◌/◌, ◌%◌, ◌^◌, ◌==◌, ltb, if◌then◌else◌, Bool, true, false, ◌&&◌,
  Option, none, some, List, [], ◌∷◌, ◌++◌,
}
use ic_competition.Difftest.{Reference}
use ic_competition.Sdb.Outcome.{Outcome, value, failed, aborted}
use ic_competition.Sdb.Watchpoint.{
  Pool, new_wp, Created, created, refused, stopped, delete_wp, delete_loop,
}
use ic_competition.Sim.Memory.{pmem_read}
use ic_competition.Sim.Circuit.{quit, Iring, State, set_npc, Config}
use ic_competition.Sim.Exec.{cpu_exec}

unfoldable pub skip_spaces : List ℕ → List ℕ
skip_spaces [] = []
skip_spaces (c ∷ l) = let rest = skip_spaces l in if c == b' ' then rest else c ∷ l

-- The characters up to the first space, and those behind it.
unfoldable pub cut_word : List ℕ → List ℕ × List ℕ
cut_word [] = ([], [])
cut_word (c ∷ l) = let rest = cut_word l in if c == b' ' then ([], l) else (c ∷ rest.0, rest.1)

-- The next word and what is behind it, or `none` for NULL.
unfoldable pub strtok : List ℕ → Option (List ℕ × List ℕ)
strtok l = elim (skip_spaces l) [ [] ↦ none | c ∷ r ↦ some (cut_word (c ∷ r)) ]

-- `strcmp(a, b) == 0`
unfoldable pub same_text : List ℕ → List ℕ → Bool
same_text [] [] = true
same_text [] (y ∷ ys) = false
same_text (x ∷ xs) [] = false
same_text (x ∷ xs) (y ∷ ys) = same_text xs ys && (x == y)

-- The handlers.
pub data Command : Type 0 where
  cmd_help cmd_c cmd_q cmd_si cmd_info cmd_x cmd_p cmd_w cmd_d cmd_t : Command

unfoldable pub cmd_table : List (List ℕ × Command)
cmd_table =
    (b'h' ∷ b'e' ∷ b'l' ∷ b'p' ∷ [], cmd_help)
    ∷ (b'c' ∷ [], cmd_c)
    ∷ (b'q' ∷ [], cmd_q)
    ∷ (b's' ∷ b'i' ∷ [], cmd_si)
    ∷ (b'i' ∷ b'n' ∷ b'f' ∷ b'o' ∷ [], cmd_info)
    ∷ (b'x' ∷ [], cmd_x)
    ∷ (b'p' ∷ [], cmd_p)
    ∷ (b'w' ∷ [], cmd_w)
    ∷ (b'd' ∷ [], cmd_d)
    ∷ (b't' ∷ [], cmd_t)
    ∷ []

unfoldable pub find_cmd : List ℕ → List (List ℕ × Command) → Option Command
find_cmd w [] = none
find_cmd w (row ∷ rows) =
    let rest = find_cmd w rows in if same_text w row.0 then some row.1 else rest

-- What is printed: the descriptions of commands, a word that is none, the two complaints about
-- arguments, the registers, the watchpoints, the functions, the two traces, a word of the memory with
-- its number and its place, a value, an expression that has none, and what became of a watchpoint.
pub data Printed : Type 0 where
  descriptions : List (List ℕ × Command) → Printed
  no_command : List ℕ → Printed
  missing invalid : Printed
  registers : (ℕ → ℕ) → Printed
  watchpoints : Pool → Printed
  functions function_trace : Printed
  instruction_trace : Iring → Printed
  word : ℕ → ℕ → ℕ → Printed
  result : ℕ → Printed
  no_value : Printed
  set_wp : ℕ → Printed
  not_set : Printed
  deleted : ℕ → Printed
  no_wp : Printed

-- What a handler returns: 0, a negative number, or not at all, where an assertion fails, a panic
-- ends the program, or NULL is read.
pub data Done (s : Type 0) : Type 0 where
  goes : s → List Printed → Done s
  leaves : s → Done s
  fails : Done s

module _ {s : Type 0} where
  abbrev pub executed : Option s → Done s
  executed none = fails
  executed (some t) = goes t []

  abbrev pub printed : Option (s × List Printed) → Done s
  printed none = fails
  printed (some (t, out)) = goes t out

-- An `int` as the `uint64_t` that it becomes.
abbrev pub extend : ℕ → ℕ
extend n = if ltb n (2 ^ 31) then n else n + (2 ^ 64 - 2 ^ 32)

-- The descriptions that `help` prints for a word.
unfoldable pub describe : List ℕ → List (List ℕ × Command) → List Printed
describe w [] = no_command w ∷ []
describe w (row ∷ rows) =
    let rest = describe w rows in if same_text w row.0 then descriptions (row ∷ []) ∷ [] else rest

module _ {c r : Type 0} (cfg : Config c) (reference : Reference r)
    (expr : State c r → List ℕ → Outcome) (atoi : List ℕ → ℕ) where
  unfoldable pub help : List ℕ → List Printed
  help args = elim (strtok args) [
    | none ↦ descriptions cmd_table ∷ []
    | some arg ↦ describe arg.0 cmd_table
  ]

  unfoldable pub step_inst : List ℕ → State c r → Done (State c r)
  step_inst args s = elim (strtok args) [
    | none ↦ executed (cpu_exec cfg reference expr 1 s)
    | some n_str ↦ executed (cpu_exec cfg reference expr (extend (atoi n_str.0)) s)
  ]

  unfoldable pub info : List ℕ → State c r → List Printed
  info args s = elim (strtok args) [
    | none ↦ missing ∷ []
    | some arg ↦
        if same_text arg.0 (b'r' ∷ [])
        then registers (cfg.circuit.read_reg s.circuit) ∷ []
        else if same_text arg.0 (b'w' ∷ [])
        then watchpoints s.pool ∷ []
        else if same_text arg.0 (b'f' ∷ [])
        then functions ∷ []
        else invalid ∷ []
  ]

  unfoldable pub trace : List ℕ → State c r → List Printed
  trace args s = elim (strtok args) [
    | none ↦ missing ∷ []
    | some arg ↦
        if same_text arg.0 (b'i' ∷ [])
        then instruction_trace s.iring ∷ []
        else if same_text arg.0 (b'f' ∷ [])
        then function_trace ∷ []
        else invalid ∷ []
  ]

  -- `for (uint32_t i = 0; i != N_num; i++)`, with the rounds left first
  unfoldable pub scan_memory : ℕ → ℕ → ℕ → State c r → Option (State c r × List Printed)
  scan_memory zero i base s = some (s, [])
  scan_memory (suc n) i base s =
      let addr = (i * 4 + base) % 2 ^ 32 in
      elim (pmem_read cfg.device (cfg.get_time s.nr_clk_tick) addr s.bus) [
        | none ↦ none
        | some (v, b) ↦ elim (scan_memory n (i + 1) base (record s { bus = b })) [
          | none ↦ none
          | some (t, out) ↦ some (t, word i (addr / 4 * 4) v ∷ out)
        ]
      ]

  unfoldable pub examine : List ℕ → State c r → Done (State c r)
  examine args s = elim (strtok args) [
    | none ↦ goes s (missing ∷ [])
    | some n_str ↦ elim (strtok n_str.1) [
      | none ↦ goes s (missing ∷ [])
      | some expression ↦ elim (expr s expression.0) [
        | value v ↦ printed (scan_memory (atoi n_str.0) 0 v s)
        | failed ↦ goes s (no_value ∷ [])
        | aborted ↦ fails
      ]
    ]
  ]

  -- `p` and `w` pass on the rest of the line, which is NULL where it is empty.
  unfoldable pub print_expr : List ℕ → State c r → Done (State c r)
  print_expr [] s = fails
  print_expr (a ∷ args) s = elim (expr s (a ∷ args)) [
    | value v ↦ goes s (result v ∷ [])
    | failed ↦ goes s (no_value ∷ [])
    | aborted ↦ fails
  ]

  unfoldable pub set_new_wp : List ℕ → State c r → Done (State c r)
  set_new_wp [] s = fails
  set_new_wp (a ∷ args) s = elim (new_wp (expr s) s.pool (a ∷ args)) [
    | created w p ↦ goes (record s { pool = p }) (set_wp (p.no w) ∷ [])
    | refused ↦ goes s (not_set ∷ [])
    | stopped ↦ fails
  ]

  -- What delete_wp() says of the number: `none` where the fuel runs out.
  unfoldable pub said : ℕ → Option (Option ℕ) → List Printed
  said n (some (some w)) = deleted n ∷ []
  said n _ = no_wp ∷ []

  unfoldable pub delete : List ℕ → State c r → Done (State c r)
  delete args s = elim (strtok args) [
    | none ↦ goes s (missing ∷ [])
    | some n_str ↦ elim (delete_wp 33 s.pool (atoi n_str.0)) [
      | none ↦ fails
      | some p ↦
          goes (record s { pool = p })
            (said (atoi n_str.0) (delete_loop 33 s.pool (atoi n_str.0) s.pool.head))
    ]
  ]

  unfoldable pub handler : Command → List ℕ → State c r → Done (State c r)
  handler cmd_help args s = goes s (help args)
  handler cmd_c args s = executed (cpu_exec cfg reference expr (2 ^ 64 - 1) s)
  handler cmd_q args s = leaves (set_npc quit s)
  handler cmd_si args s = step_inst args s
  handler cmd_info args s = goes s (info args s)
  handler cmd_x args s = examine args s
  handler cmd_p args s = print_expr args s
  handler cmd_w args s = set_new_wp args s
  handler cmd_d args s = delete args s
  handler cmd_t args s = goes s (trace args s)

  -- One line of the session.
  unfoldable pub run_line : List ℕ → State c r → Done (State c r)
  run_line line s = elim (strtok line) [
    | none ↦ goes s []
    | some cmd ↦ elim (find_cmd cmd.0 cmd_table) [
      | none ↦ goes s (no_command cmd.0 ∷ [])
      | some found ↦ handler found cmd.1 s
    ]
  ]

  unfoldable pub carry_on :
      (State c r → Option (State c r × List Printed))
      → Done (State c r)
      → Option (State c r × List Printed)
  carry_on k (goes s out) = elim (k s) [ none ↦ none | some (t, more) ↦ some (t, out ++ more) ]
  carry_on k (leaves s) = some (s, [])
  carry_on k fails = none

  -- The loop of sdb_mainloop() over the lines that are read; behind the last readline() gives NULL.
  unfoldable pub session : List (List ℕ) → State c r → Option (State c r × List Printed)
  session [] s = some (s, [])
  session (line ∷ lines) s = carry_on (session lines) (run_line line s)

  unfoldable pub sdb_mainloop : Bool → List (List ℕ) → State c r → Option (State c r × List Printed)
  sdb_mainloop true lines s = elim (cpu_exec cfg reference expr (2 ^ 64 - 1) s) [
    | none ↦ none
    | some t ↦ some (t, [])
  ]
  sdb_mainloop false lines s = session lines s
