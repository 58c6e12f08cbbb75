-- ===== src/Sdb/Expr.antt =====
-- The expression evaluator of core/csrc/monitor/sdb/expr.c: tokens in Token, the tokenizer in Lexer,
-- eval() in Eval. This file joins them as expr() does.
pub mod Token
pub mod Lexer
pub mod Eval
pub mod Grammar
pub mod Correct
pub mod Prefix
pub mod Meaning
use ic_competition.Base.{
  ℕ, zero, suc, ◌+◌, ◌-◌, Bool, true, false, ◌&&◌, ◌||◌, List, ◌==◌, if◌then◌else◌,
}
use ic_competition.Sdb.Outcome.{Outcome, value, failed, aborted}
use Token.{Tokens, kind_at, set_kind, deref, inv, is_operator}
use Lexer.{Host, make_token, Lexed, lexed, rejected, looped, overrun}
use Eval.{Machine, eval, Result, ret, panicked, out_of_fuel}

-- The type that the pass of expr() gives a token of type `k` whose predecessor has type `prev`; at
-- the start of the input `first` holds.
abbrev pub prefix_kind : Bool → ℕ → ℕ → ℕ
prefix_kind first prev k =
    let opens = first || is_operator prev || prev == b'(' in
    if k == b'*' && opens then deref else if k == b'-' && opens then inv else k

-- `for(int i = 0; i < nr_token; i++)`, with the rounds left first
unfoldable pub replace_prefix : ℕ → ℕ → Tokens → Tokens
replace_prefix zero i t = t
replace_prefix (suc n) i t =
    replace_prefix n (i + 1) (set_kind t i (prefix_kind (i == 0) (kind_at t (i - 1)) (kind_at t i)))

-- expr(): `tokens` is what the array held before, and eval() runs on as much fuel as there are
-- tokens, and one more.
unfoldable pub expr : Host → Machine → Tokens → List ℕ → Outcome
expr host machine tokens e = elim (make_token host tokens e) [
  | lexed t n ↦ elim (eval machine (n + 1) (replace_prefix n 0 t) 0 n true) [
    | ret v ok ↦ if ok then value v else failed
    | panicked ↦ aborted
    | out_of_fuel ↦ aborted
  ]
  | rejected ↦ failed
  | overrun ↦ aborted
  | looped ↦ aborted
]
