-- ===== src/Sdb/Expr/Meaning.antt =====
-- expr() from the text of an expression to its value: the tokenizer, the pass over prefix operators
-- and eval() together.
use ic_competition.Base.{
  ℕ, ◌+◌, ◌≤◌, ◌≡◌, ◌≢◌, refl, ap, ◌∙◌, true, List, [], ◌∷◌, arith, length, length-append,
  if◌then◌else◌,
}
use ic_competition.Sdb.Outcome.{Outcome, value, failed, aborted}
use ic_competition.Sdb.Expr.Token.{Tokens}
use ic_competition.Sdb.Expr.Eval.{Machine, Result, ret, panicked, out_of_fuel, eval}
use ic_competition.Sdb.Expr.Grammar.{
  Ast, number, paren, unary, binary, tokens, denote, IsWf, symbol, bin_kind,
}
use ic_competition.Sdb.Expr.Lexer.{Host, make_token, lexed}
use ic_competition.Sdb.Expr.Lexer.Patterns.{posix_match}
use ic_competition.Sdb.Expr.Lexer.Lexemes.{Lexeme, text, text_tokens, IsText}
use ic_competition.Sdb.Expr.Lexer.Run.{make_token-text}
use ic_competition.Sdb.Expr.Prefix.{raw_tokens, replace_prefix-tokens}
use ic_competition.Sdb.Expr.Correct.{eval-denote}
use ic_competition.Sdb.Expr.Correct.Steps.{Agrees}
use ic_competition.Sdb.Expr.Correct.Ranges.{Range}
use ic_competition.Sdb.Expr.{expr, replace_prefix}

-- The value that an outcome calls for, or no value.
abbrev pub Gives : Outcome → Outcome → Type 0
Gives r (value v) = r ≡ value v
Gives r failed = (v : ℕ) → r ≢ value v
Gives r aborted = (v : ℕ) → r ≢ value v

length-raw_tokens : (a : Ast) → length (raw_tokens a) ≡ length (tokens a)
unfolding raw_tokens tokens
length-raw_tokens (number s) = refl
length-raw_tokens (paren a) = omega (
  arith,
  length-raw_tokens a,
  length-append (raw_tokens a) (symbol b')' ∷ []),
  length-append (tokens a) (symbol b')' ∷ []),
)
length-raw_tokens (unary o a) = omega (arith, length-raw_tokens a)
length-raw_tokens (binary o a b) = omega (
  arith,
  length-raw_tokens a,
  length-raw_tokens b,
  length-append (raw_tokens a) (symbol (bin_kind o) ∷ raw_tokens b),
  length-append (tokens a) (symbol (bin_kind o) ∷ tokens b),
)

-- What expr() makes of the result of eval().
abbrev settle : Result → Outcome
settle r = elim r [
  | ret v ok ↦ if ok then value v else failed
  | panicked ↦ aborted
  | out_of_fuel ↦ aborted
]

Agrees-Gives : (r : Result) (o : Outcome) → Agrees r o → Gives (settle r) o
Agrees-Gives r (value v) h = rw h
Agrees-Gives (ret v ok) failed h = λ w e. ground (arith, h)
Agrees-Gives panicked failed h = λ w e. cc
Agrees-Gives out_of_fuel failed h = absurd h
Agrees-Gives (ret v ok) aborted h = λ w e. ground (arith, h)
Agrees-Gives panicked aborted h = λ w e. cc
Agrees-Gives out_of_fuel aborted h = absurd h

module _ (host : Host) (machine : Machine) (t : Tokens) where
  expr_lexed :
      (e : List ℕ) {t' : Tokens} {n : ℕ} (o : Outcome)
      → make_token host t e ≡ lexed t' n
      → Agrees (eval machine (n + 1) (replace_prefix n 0 t') 0 n true) o
      → Gives (expr host machine t e) o
  unfolding expr
  expr_lexed e o run h = rw (run, expr) (Agrees-Gives _ o h)

  -- Where regexec finds the leftmost longest match: on every text of lexemes that do not run into
  -- one another and whose tokens, at most 65536, spell a well-formed expression, with any spaces
  -- between them, `expr` returns the value of the expression, and no value where the expression has
  -- none.
  pub expr-denote :
      (a : Ast) (ls : List Lexeme)
      → ((i : ℕ) (e : List ℕ) → host.regexec i e ≡ posix_match i e)
      → IsText host ls
      → length (text_tokens host ls) ≤ 65536
      → text_tokens host ls ≡ raw_tokens a
      → IsWf a
      → Gives (expr host machine t (text ls)) (denote machine a)
  expr-denote a ls posix is_text fits spells wf =
      let (t', run, holds) = make_token-text host t ls posix is_text fits in
      let n = length (text_tokens host ls) in
      let size : n ≡ length (tokens a) = ap length spells ∙ length-raw_tokens a in
      let range : Range (replace_prefix n 0 t') 0 n a = record {
        holds = rw spells (replace_prefix-tokens t' a wf (rw spells at holds));
        ends = omega (arith, size);
        wf = wf;
      } in
      expr_lexed (text ls) (denote machine a) run
        (eval-denote machine (n + 1) (replace_prefix n 0 t') 0 n a range (omega (arith, size)))
