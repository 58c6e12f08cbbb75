-- ===== src/Sdb/Expr/Grammar.antt =====
-- The expressions that the debugger's input language means, their tokens and their values: the
-- specification of eval() of expr.c.
pub mod Scan
pub mod Search
use ic_competition.Base.{
  ℕ, zero, suc, ◌+◌, ◌-◌, ◌*◌, ◌%◌, ◌^◌, ◌≤◌, ◌<◌, ◌≡◌, Bool, true, false, not, ◌&&◌, none, some,
  List, [], ◌∷◌, ◌++◌, ◌==◌, if◌then◌else◌, signed32, word32,
}
use ic_competition.Sdb.Outcome.{Outcome, value, failed, aborted}
use ic_competition.Sdb.Expr.Token.{Token, Tokens, num, eq, neq, and, deref, inv}
use ic_competition.Sdb.Expr.Eval.{Machine, div_ℤ, truth}

pub data BinOp : Type 0 where
  add sub mul div eql neq_ both : BinOp

pub data UnOp : Type 0 where
  negate load : UnOp

-- A number is the text of its token.
pub data Ast : Type 0 where
  number : List ℕ → Ast
  paren : Ast → Ast
  unary : UnOp → Ast → Ast
  binary : BinOp → Ast → Ast → Ast

abbrev pub bin_kind : BinOp → ℕ
bin_kind add = b'+'
bin_kind sub = b'-'
bin_kind mul = b'*'
bin_kind div = b'/'
bin_kind eql = eq
bin_kind neq_ = neq
bin_kind both = and

abbrev pub un_kind : UnOp → ℕ
un_kind negate = inv
un_kind load = deref

abbrev pub symbol : ℕ → Token
symbol k = record { kind = k; str = [] }

-- The types and strings of the tokens of an expression; the string matters only for a number.
unfoldable pub tokens : Ast → List Token
tokens (number s) = record { kind = num; str = s } ∷ []
tokens (paren a) = symbol b'(' ∷ (tokens a ++ symbol b')' ∷ [])
tokens (unary o a) = symbol (un_kind o) ∷ tokens a
tokens (binary o a b) = tokens a ++ symbol (bin_kind o) ∷ tokens b

-- The usual precedence: `*` and `/` bind tightest, then `+` and `-`, then the comparisons, then `&&`.
abbrev pub rank : BinOp → ℕ
rank add = 3
rank sub = 3
rank mul = 2
rank div = 2
rank eql = 4
rank neq_ = 4
rank both = 5

-- How loosely the outermost operator binds.
abbrev pub level : Ast → ℕ
level (number s) = 0
level (paren a) = 0
level (unary o a) = 1
level (binary o a b) = rank o

-- Binary operators of one level associate to the left, and a prefix operator takes a number or a
-- parenthesis.
abbrev pub IsWf : Ast → Type 0
IsWf (number s) = Unit {0}
IsWf (paren a) = IsWf a
IsWf (unary o a) = (level a ≡ 0) × IsWf a
IsWf (binary o a b) = (level a ≤ rank o) × (level b < rank o) × IsWf a × IsWf b

-- The token array holds these types, and the strings of the numbers among them, from `p` on.
abbrev pub Holds : Tokens → ℕ → List Token → Type 0
Holds t p [] = Unit {0}
Holds t p (x ∷ xs) = ((t p).kind ≡ x.kind) × (x.kind ≡ num → (t p).str ≡ x.str) × Holds t (p + 1) xs

-- The value of an operator on two 32-bit numbers.
abbrev pub bin_value : BinOp → ℕ → ℕ → Outcome
bin_value add a b = value ((a + b) % 2 ^ 32)
bin_value sub a b = value ((a + 2 ^ 32 - b) % 2 ^ 32)
bin_value mul a b = value ((a * b) % 2 ^ 32)
bin_value div a b =
    if b == 0
    then failed
    else if a == 2 ^ 31 && b == 2 ^ 32 - 1
    then aborted
    else value (word32 (div_ℤ (signed32 a) (signed32 b)))
bin_value eql a b = value (truth (a == b))
bin_value neq_ a b = value (truth (not (a == b)))
bin_value both a b = value (truth (not (a == 0) && not (b == 0)))

abbrev pub both_values : Outcome → Outcome → (ℕ → ℕ → Outcome) → Outcome
both_values (value a) (value b) f = f a b
both_values (value a) failed f = failed
both_values (value a) aborted f = aborted
both_values failed y f = failed
both_values aborted y f = aborted

abbrev pub one_value : Outcome → (ℕ → Outcome) → Outcome
one_value (value a) f = f a
one_value failed f = failed
one_value aborted f = aborted

module _ (machine : Machine) where
  abbrev pub un_value : UnOp → ℕ → Outcome
  un_value negate a = value ((2 ^ 32 - a) % 2 ^ 32)
  un_value load a = elim (machine.pmem_read a) [ none ↦ aborted | some v ↦ value v ]

  -- The meaning of an expression: operands from left to right, and the first failure counts.
  unfoldable pub denote : Ast → Outcome
  denote (number s) = value (machine.atoi s)
  denote (paren a) = denote a
  denote (unary o a) = one_value (denote a) (un_value o)
  denote (binary o a b) = both_values (denote a) (denote b) (bin_value o)
