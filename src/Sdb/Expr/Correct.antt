-- ===== src/Sdb/Expr/Correct.antt =====
-- eval() of expr.c computes the value of every well-formed expression.
mod Parens
pub mod Steps
pub mod Ranges
use ic_competition.Base.{
  ℕ, zero, suc, ◌+◌, ◌-◌, ◌≤◌, ◌<◌, ◌≡◌, refl, ap, sym, subst, ◌∙◌, Bool, true, false, ◌&&◌, some,
  none, List, [], ◌∷◌, arith, ◌==◌, ==-refl, if◌then◌else◌, length, length-append,
}
use ic_competition.Sdb.Outcome.{Outcome, value, failed, aborted}
use ic_competition.Sdb.Expr.Token.{Tokens, kind_at, num, op_hirc}
use ic_competition.Sdb.Expr.Eval.{
  Machine, Result, ret, panicked, out_of_fuel, eval, eval_op, apply, then_with,
}
use ic_competition.Sdb.Expr.Grammar.{
  Ast, load, div, number, paren, unary, binary, BinOp, UnOp, tokens, Holds, IsWf, level, denote,
  symbol, bin_kind, un_kind, bin_value, both_values, one_value, un_value,
}
use ic_competition.Sdb.Expr.Grammar.Scan.{Holds-append-left, Holds-append-right}
use Steps.{Refused, Agrees, eval_single, eval_inside, eval_outside, Agrees-binary, Agrees-unary}
use Ranges.{
  Range, Range-paren, Range-operand, Range-left, Range-right, length_pos, length_binary,
  length_paren, length_unary, eval_number, eval_paren, eval_binary, eval_unary, eval_binary_true,
  eval_unary_true,
}

-- With `*success` false eval returns, gives no value, and reads no memory.
eval_failed :
    (machine : Machine) (k : ℕ) (t : Tokens) (p e : ℕ) (a : Ast)
    → Range t p e a
    → length (tokens a) ≤ k
    → (v : ℕ) × (eval machine k t p e false ≡ ret v false)
eval_failed machine zero t p e a r fuel = absurd (omega (arith, length_pos a))
eval_failed machine (suc k) t p e (number s) r fuel =
    (machine.atoi s, eval_number machine k t p e s false r)
eval_failed machine (suc k) t p e (paren a) r fuel =
    let (v, h) =
      eval_failed machine k t (p + 1) (e - 1) a (Range-paren r) (omega (arith, length_paren a)) in
    (v, eval_paren machine k t p e a false r ∙ h)
eval_failed machine (suc k) t p e (unary o a) r fuel = (1, eval_unary machine k t p e o a false r)
eval_failed machine (suc k) t p e (binary o a b) r fuel =
    (1, eval_binary machine k t p e o a b false r)

-- On the tokens of a well-formed expression, with as much fuel as there are tokens, eval returns.
-- Where the expression has a value it returns that value with `*success` true, with `*` and `/`
-- binding closest, then `+` and `-`, then `==` and `!=`, then `&&`, each associating to the left,
-- and where it has none, it gives none: `*success` is false or the program ends.
pub eval-denote :
    (machine : Machine) (k : ℕ) (t : Tokens) (p e : ℕ) (a : Ast)
    → Range t p e a
    → length (tokens a) ≤ k
    → Agrees (eval machine k t p e true) (denote machine a)
unfolding denote
eval-denote machine zero t p e a r fuel = absurd (omega (arith, length_pos a))
eval-denote machine (suc k) t p e (number s) r fuel = eval_number machine k t p e s true r
eval-denote machine (suc k) t p e (paren a) r fuel =
    rw (eval_paren machine k t p e a true r)
      (eval-denote machine k t (p + 1) (e - 1) a (Range-paren r) (omega (arith, length_paren a)))
eval-denote machine (suc k) t p e (unary o a) r fuel = rw (eval_unary_true machine k t p e o a r) (
    Agrees-unary machine (λ s. eval machine k t (p + 1) e s) o (denote machine a)
      (eval-denote machine k t (p + 1) e a (Range-operand r) (omega (arith, length_unary o a))))
eval-denote machine (suc k) t p e (binary o a b) r fuel =
    rw (eval_binary_true machine k t p e o a b r) (
      Agrees-binary machine (λ s. eval machine k t (p + length (tokens a) + 1) e s) o _
        (denote machine a) (denote machine b)
        (eval-denote machine k t p (p + length (tokens a)) a (Range-left r)
          (omega (arith, length_binary o a b)))
        (eval-denote machine k t (p + length (tokens a) + 1) e b (Range-right r)
          (omega (arith, length_binary o a b)))
        (eval_failed machine k t (p + length (tokens a) + 1) e b (Range-right r)
          (omega (arith, length_binary o a b))))

-- A prefix `*` in front of a parenthesised division by zero, whose dividend has a value, ends the
-- program where address 1 cannot be read: the operator is applied to the 1 that the failed operand
-- returns, and `*success` is not looked at.
pub eval-load_failed :
    (machine : Machine) (k : ℕ) (t : Tokens) (p e : ℕ) (a : Ast) (z : List ℕ) (v : ℕ)
    → Range t p e (unary load (paren (binary div a (number z))))
    → length (tokens a) ≤ suc k
    → denote machine a ≡ value v
    → machine.atoi z ≡ 0
    → machine.pmem_read 1 ≡ none
    → eval machine (suc (suc (suc (suc k)))) t p e true ≡ panicked
eval-load_failed machine k t p e a z v r fuel da null unreadable =
    let q = Range-operand r in
    let d = Range-paren q in
    let left : eval machine (suc k) t (p + 1 + 1) (p + 1 + 1 + length (tokens a)) true
        ≡ ret v true =
      rw da at (eval-denote machine (suc k) t _ _ a (Range-left d) fuel) in
    eval_unary_true machine (suc (suc (suc k))) t p e load (paren (binary div a (number z))) r
    ∙ ap (λ s. then_with s (λ val2 ok2. apply machine (un_kind load) 0 val2 ok2))
        (eval_paren machine (suc (suc k)) t (p + 1) e (binary div a (number z)) true q
          ∙ eval_binary_true machine (suc k) t (p + 1 + 1) (e - 1) div a (number z) d
          ∙ ap
              (λ s. then_with s (λ val1 ok1.
                then_with (eval machine (suc k) t (p + 1 + 1 + length (tokens a) + 1) (e - 1) ok1)
                  (λ val2 ok2. apply machine (bin_kind div) val1 val2 ok2)))
              left
          ∙ ap (λ s. then_with s (λ val2 ok2. apply machine (bin_kind div) v val2 ok2))
              (eval_number machine k t _ (e - 1) z true (Range-right d)
                ∙ ap (λ n. ret n true) null))
    ∙ (unfold apply in rw unreadable)
