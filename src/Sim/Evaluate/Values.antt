-- ===== src/Sim/Evaluate/Values.antt =====
-- The command `p` in a state of the simulator.
use ic_competition.Base.{
  ℕ, ◌≤◌, ◌≡◌, length, false, refl, sym, ap, subst, ◌⊎◌, inl, inr, some, List, [], ◌∷◌,
}
use ic_competition.Difftest.{Reference}
use ic_competition.Sdb.Outcome.{Outcome, value, failed, aborted}
use ic_competition.Sdb.Expr.Token.{Tokens}
use ic_competition.Sdb.Expr.Grammar.{Ast, IsWf, denote}
use ic_competition.Sdb.Expr.Lexer.Patterns.{posix_match}
use ic_competition.Sdb.Expr.Lexer.Lexemes.{Lexeme, text, text_tokens, IsText}
use ic_competition.Sdb.Expr.Prefix.{raw_tokens}
use ic_competition.Sdb.Expr.Meaning.{Gives, expr-denote}
use ic_competition.Sim.Circuit.{State, Config}
use ic_competition.Sim.Exec.Sane.{Outcome-cases}
use ic_competition.Sim.Commands.{
  Done, goes, fails, result, no_value, cmd_p, strtok, skip_spaces, cut_word, find_cmd, cmd_table,
  same_text, print_expr, handler, run_line,
}
use ic_competition.Sim.Evaluate.{Libc, state_host, state_machine, state_expr}

-- `p` with an expression.
abbrev pub p_line : List ℕ → List ℕ
p_line e = b'p' ∷ b' ' ∷ e

-- What the line does: the state stays, and the value is printed, or there is none.
abbrev pub Shows : {s : Type 0} → Done s → s → Outcome → Type 0
Shows d s (value v) = d ≡ goes s (result v ∷ [])
Shows d s failed = (d ≡ goes s (no_value ∷ [])) ⊎ (d ≡ fails)
Shows d s aborted = (d ≡ goes s (no_value ∷ [])) ⊎ (d ≡ fails)

p-found : (e : List ℕ) → strtok (p_line e) ≡ some (b'p' ∷ [], e)
unfolding strtok skip_spaces cut_word
p-found e = refl

cmd_p-found : find_cmd (b'p' ∷ []) cmd_table ≡ some cmd_p
unfolding find_cmd cmd_table same_text
cmd_p-found = refl

module _ {c r : Type 0} (cfg : Config c) (reference : Reference r) (libc : Libc)
    (tokens : Tokens) where
  abbrev evaluator : State c r → List ℕ → Outcome
  evaluator = state_expr libc cfg tokens

  print_expr-Shows :
      (x : ℕ) (e : List ℕ) (s : State c r) (o : Outcome)
      → Gives (evaluator s (x ∷ e)) o
      → Shows (print_expr cfg reference evaluator libc.atoi (x ∷ e) s) s o
  unfolding print_expr
  print_expr-Shows x e s (value v) gives = rw (gives, print_expr) refl
  print_expr-Shows x e s failed gives = elim (Outcome-cases (evaluator s (x ∷ e))) [
    | inl got ↦ absurd (gives got.0 got.1)
    | inr (inl f) ↦ inl (rw (f, print_expr) refl)
    | inr (inr f) ↦ inr (rw (f, print_expr) refl)
  ]
  print_expr-Shows x e s aborted gives = elim (Outcome-cases (evaluator s (x ∷ e))) [
    | inl got ↦ absurd (gives got.0 got.1)
    | inr (inl f) ↦ inl (rw (f, print_expr) refl)
    | inr (inr f) ↦ inr (rw (f, print_expr) refl)
  ]

  -- Without devices and where regexec finds the leftmost longest match: the line `p` with a text of
  -- lexemes, of at most 65536 tokens, that do not run into one another and whose tokens spell a
  -- well-formed expression prints the value that the expression has in the simulator's registers
  -- and memory, or no value where it has none, and leaves the simulator as it is.
  pub run_line-Shows :
      (a : Ast) (ls : List Lexeme) (x : ℕ) (e : List ℕ) (s : State c r)
      → ((i : ℕ) (l : List ℕ) → libc.regexec i l ≡ posix_match i l)
      → cfg.device ≡ false
      → length (text_tokens (state_host libc cfg s) ls) ≤ 65536
      → text ls ≡ x ∷ e
      → IsText (state_host libc cfg s) ls
      → text_tokens (state_host libc cfg s) ls ≡ raw_tokens a
      → IsWf a
      → Shows
          (run_line cfg reference evaluator libc.atoi (p_line (text ls)) s)
          s
          (denote (state_machine libc cfg s) a)
  unfolding run_line handler state_expr
  run_line-Shows a ls x e s posix no_devices fits first is_text spells wf =
      let gives =
        expr-denote (state_host libc cfg s) (state_machine libc cfg s) tokens a ls posix is_text
          fits spells wf in
      let o = denote (state_machine libc cfg s) a in
      let line : run_line cfg reference evaluator libc.atoi (p_line (text ls)) s
          ≡ print_expr cfg reference evaluator libc.atoi (x ∷ e) s =
        rw (p-found (text ls), run_line, cmd_p-found, handler)
          (ap (λ l. print_expr cfg reference evaluator libc.atoi l s) first) in
      subst (λ d. Shows d s o) (sym line)
        (print_expr-Shows x e s o (subst (λ l. Gives (evaluator s l) o) first gives))
