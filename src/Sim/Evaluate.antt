-- ===== src/Sim/Evaluate.antt =====
-- The debugger's evaluator in a state of the simulator: core/csrc/cpu/reg.cpp, and what expr() of
-- core/csrc/monitor/sdb/expr.c calls. The functions of the host's C library are a parameter.
pub mod Registers
pub mod Values
use ic_competition.Base.{
  ℕ, zero, suc, ◌+◌, ◌==◌, if◌then◌else◌, Bool, true, false, Option, none, some, List, [], ◌∷◌,
}
use ic_competition.Sdb.Outcome.{Outcome}
use ic_competition.Sdb.Expr.Token.{Tokens}
use ic_competition.Sdb.Expr.Lexer.{Host}
use ic_competition.Sdb.Expr.Eval.{Machine}
use ic_competition.Sdb.Expr.{expr}
use ic_competition.Sim.Memory.{pmem_read}
use ic_competition.Sim.Circuit.{State, Config}
use ic_competition.Sim.Commands.{same_text}

-- The names of the 32 registers.
unfoldable pub regs : List (List ℕ)
regs =
    (b'$' ∷ b'0' ∷ [])
    ∷ (b'r' ∷ b'a' ∷ [])
    ∷ (b's' ∷ b'p' ∷ [])
    ∷ (b'g' ∷ b'p' ∷ [])
    ∷ (b't' ∷ b'p' ∷ [])
    ∷ (b't' ∷ b'0' ∷ [])
    ∷ (b't' ∷ b'1' ∷ [])
    ∷ (b't' ∷ b'2' ∷ [])
    ∷ (b's' ∷ b'0' ∷ [])
    ∷ (b's' ∷ b'1' ∷ [])
    ∷ (b'a' ∷ b'0' ∷ [])
    ∷ (b'a' ∷ b'1' ∷ [])
    ∷ (b'a' ∷ b'2' ∷ [])
    ∷ (b'a' ∷ b'3' ∷ [])
    ∷ (b'a' ∷ b'4' ∷ [])
    ∷ (b'a' ∷ b'5' ∷ [])
    ∷ (b'a' ∷ b'6' ∷ [])
    ∷ (b'a' ∷ b'7' ∷ [])
    ∷ (b's' ∷ b'2' ∷ [])
    ∷ (b's' ∷ b'3' ∷ [])
    ∷ (b's' ∷ b'4' ∷ [])
    ∷ (b's' ∷ b'5' ∷ [])
    ∷ (b's' ∷ b'6' ∷ [])
    ∷ (b's' ∷ b'7' ∷ [])
    ∷ (b's' ∷ b'8' ∷ [])
    ∷ (b's' ∷ b'9' ∷ [])
    ∷ (b's' ∷ b'1' ∷ b'0' ∷ [])
    ∷ (b's' ∷ b'1' ∷ b'1' ∷ [])
    ∷ (b't' ∷ b'3' ∷ [])
    ∷ (b't' ∷ b'4' ∷ [])
    ∷ (b't' ∷ b'5' ∷ [])
    ∷ (b't' ∷ b'6' ∷ [])
    ∷ []

-- `for(int i=0; i<32; i++)`, from `i` on over the names that are left
unfoldable pub find_reg : (ℕ → ℕ) → ℕ → List (List ℕ) → List ℕ → Option ℕ
find_reg read_reg i [] s = none
find_reg read_reg i (name ∷ names) s =
    let rest = find_reg read_reg (i + 1) names s in
    if same_text name s then some (read_reg i) else rest

-- `none` is `*success = false`.
unfoldable pub reg_str2val : ℕ → (ℕ → ℕ) → List ℕ → Option ℕ
reg_str2val read_pc read_reg s =
    if same_text (b'p' ∷ b'c' ∷ []) s then some read_pc else find_reg read_reg 0 regs s

-- The functions of the host that expr.c calls.
pub record Libc : Type 0 where
  pub regexec : ℕ → List ℕ → Option ℕ
  pub strtoul16 : List ℕ → ℕ
  pub sprintf_u : ℕ → List ℕ
  pub atoi : List ℕ → ℕ

module _ {c r : Type 0} (libc : Libc) (cfg : Config c) where
  abbrev pub state_host : State c r → Host
  state_host s = record {
    regexec = libc.regexec;
    strtoul16 = libc.strtoul16;
    sprintf_u = libc.sprintf_u;
    reg_str2val = reg_str2val (cfg.circuit.read_pc s.circuit) (cfg.circuit.read_reg s.circuit);
  }

  -- expr.c reads the memory through pmem_read(). Without devices such a read changes nothing, so that
  -- its value is all there is to it; with devices a read outside the memory also changes the devices,
  -- which this evaluator, that of a simulator built without them, does not model.
  abbrev pub load : State c r → ℕ → Option ℕ
  load s a = elim (pmem_read false (cfg.get_time s.nr_clk_tick) a s.bus) [
    | none ↦ none
    | some (v, b) ↦ some v
  ]

  abbrev pub state_machine : State c r → Machine
  state_machine s = record { atoi = libc.atoi; pmem_read = load s }

  unfoldable pub state_expr : Tokens → State c r → List ℕ → Outcome
  state_expr tokens s e = expr (state_host s) (state_machine s) tokens e
