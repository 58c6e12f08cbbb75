-- ===== src/Sdb/Expr/Correct/Ranges.antt =====
-- Where the operands of an expression stand, and one call of eval on each form of expression.
use ic_competition.Base.{
  ℕ, suc, ◌+◌, ◌-◌, ◌<◌, ◌≡◌, refl, ap, ◌∙◌, Bool, true, false, ◌&&◌, some, List, [], ◌∷◌, arith,
  ◌==◌, ==-refl, length, length-append,
}
use ic_competition.Sdb.Expr.Token.{Tokens, kind_at}
use ic_competition.Sdb.Expr.Eval.{Machine, ret, eval, eval_op, apply, then_with}
use ic_competition.Sdb.Expr.Grammar.{
  Ast, number, paren, unary, binary, BinOp, UnOp, tokens, Holds, IsWf, level, symbol, bin_kind,
  un_kind,
}
use ic_competition.Sdb.Expr.Grammar.Scan.{Holds-append-left, Holds-append-right}
use ic_competition.Sdb.Expr.Correct.Parens.{
  check_paren, check_binary, check_unary, find_main_op-tokens, Ends-tokens,
}
use ic_competition.Sdb.Expr.Correct.Steps.{eval_single, eval_inside, eval_outside}

-- The tokens of the expression stand between `p` and `e`.
pub record Range (t : Tokens) (p e : ℕ) (a : Ast) : Type 0 where
  pub holds : Holds t p (tokens a)
  pub ends : e ≡ p + length (tokens a)
  pub wf : IsWf a

pub length_pos : (a : Ast) → 0 < length (tokens a)
length_pos a = let r = Ends-tokens a in omega (arith, ap length r.starts)

module _ {t : Tokens} {p e : ℕ} where
  pub Range-paren : {a : Ast} → Range t p e (paren a) → Range t (p + 1) (e - 1) a
  unfolding tokens
  Range-paren {a} r = record {
    holds = Holds-append-left t (p + 1) (tokens a) _ r.holds.2;
    ends = omega (arith, r.ends, length-append (tokens a) (symbol b')' ∷ []));
    wf = r.wf;
  }

  pub Range-operand : {o : UnOp} {a : Ast} → Range t p e (unary o a) → Range t (p + 1) e a
  unfolding tokens
  Range-operand {a} r = record { holds = r.holds.2; ends = omega (arith, r.ends); wf = r.wf.1 }

  pub Range-left :
      {o : BinOp} {a b : Ast} → Range t p e (binary o a b) → Range t p (p + length (tokens a)) a
  unfolding tokens
  Range-left {a} r = record {
    holds = Holds-append-left t p (tokens a) _ r.holds;
    ends = refl;
    wf = r.wf.2;
  }

  pub Range-right :
      {o : BinOp} {a b : Ast} → Range t p e (binary o a b) → Range t (p + length (tokens a) + 1) e b
  unfolding tokens
  Range-right {o} {a} {b} r = record {
    holds = (Holds-append-right t p (p + length (tokens a)) (tokens a) _ refl r.holds).2;
    ends = omega (arith, r.ends, length-append (tokens a) (symbol (bin_kind o) ∷ tokens b));
    wf = r.wf.3;
  }

  pub Range-op :
      {o : BinOp} {a b : Ast}
      → Range t p e (binary o a b)
      → kind_at t (p + length (tokens a)) ≡ bin_kind o
  unfolding tokens
  Range-op {a} r = (Holds-append-right t p (p + length (tokens a)) (tokens a) _ refl r.holds).0

pub length_binary :
    (o : BinOp) (a b : Ast)
    → length (tokens (binary o a b)) ≡ length (tokens a) + suc (length (tokens b))
unfolding tokens
length_binary o a b = length-append (tokens a) (symbol (bin_kind o) ∷ tokens b)

pub length_paren : (a : Ast) → length (tokens (paren a)) ≡ suc (suc (length (tokens a)))
unfolding tokens
length_paren a = omega (arith, length-append (tokens a) (symbol b')' ∷ []))

pub length_unary : (o : UnOp) (a : Ast) → length (tokens (unary o a)) ≡ suc (length (tokens a))
unfolding tokens
length_unary o a = refl

pub level_binary : (o : BinOp) (a b : Ast) → IsWf (binary o a b) → 0 < level (binary o a b)
level_binary o a b w = omega arith

module _ (machine : Machine) (k : ℕ) (t : Tokens) (p e : ℕ) where
  pub eval_number :
      (s : List ℕ) (ok : Bool)
      → Range t p e (number s)
      → eval machine (suc k) t p e ok ≡ ret (machine.atoi s) ok
  unfolding tokens
  eval_number s ok r =
      eval_single machine k t p e ok r.ends ∙ rw (r.holds.1 refl, r.holds.0) (and_true ok)
    where
      and_true : (b : Bool) → ret (machine.atoi s) (b && true) ≡ ret (machine.atoi s) b
      and_true true = refl
      and_true false = refl

  pub eval_paren :
      (a : Ast) (ok : Bool)
      → Range t p e (paren a)
      → eval machine (suc k) t p e ok ≡ eval machine k t (p + 1) (e - 1) ok
  eval_paren a ok r =
      eval_inside machine k t p e ok ok (omega (arith, r.ends, length_paren a, length_pos a))
        (check_paren t p e ok a r.holds r.ends)

  pub eval_binary :
      (o : BinOp) (a b : Ast) (ok : Bool)
      → Range t p e (binary o a b)
      → eval machine (suc k) t p e ok
        ≡ eval_op machine t p
            (some (p + length (tokens a)))
            ok
            (λ i s. eval machine k t p i s)
            (λ i s. eval machine k t i e s)
  eval_binary o a b ok r =
      eval_outside machine k t p e ok ok (p + length (tokens a))
        (omega (arith, r.ends, length_binary o a b, length_pos a, length_pos b))
        (check_binary t p e ok o a b r.holds r.ends)
        (find_main_op-tokens t p e (binary o a b) r.holds r.ends r.wf (level_binary o a b r.wf))

  pub eval_unary :
      (o : UnOp) (a : Ast) (ok : Bool)
      → Range t p e (unary o a)
      → eval machine (suc k) t p e ok
        ≡ eval_op machine t p
            (some p)
            ok
            (λ i s. eval machine k t p i s)
            (λ i s. eval machine k t i e s)
  unfolding tokens
  eval_unary o a ok r =
      eval_outside machine k t p e ok ok p (omega (arith, r.ends, length_pos a))
        (check_unary t p e ok o a r.holds)
        (find_main_op-tokens t p e (unary o a) r.holds r.ends r.wf (omega arith))

  -- The operands' calls of a binary operator.
  pub eval_binary_true :
      (o : BinOp) (a b : Ast)
      → Range t p e (binary o a b)
      → eval machine (suc k) t p e true
        ≡ then_with (eval machine k t p (p + length (tokens a)) true) (λ val1 ok1.
          then_with
            (eval machine k t (p + length (tokens a) + 1) e ok1)
            (λ val2 ok2. apply machine (bin_kind o) val1 val2 ok2))
  eval_binary_true o a b r =
      let behind : (p + length (tokens a) == p) ≡ false = ground (arith, length_pos a) in
      eval_binary o a b true r ∙ rw (behind, Range-op r)

  pub eval_unary_true :
      (o : UnOp) (a : Ast)
      → Range t p e (unary o a)
      → eval machine (suc k) t p e true
        ≡ then_with
            (eval machine k t (p + 1) e true)
            (λ val2 ok2. apply machine (un_kind o) 0 val2 ok2)
  unfolding tokens
  eval_unary_true o a r = eval_unary o a true r ∙ rw (==-refl p, r.holds.0)
