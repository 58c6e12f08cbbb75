-- ===== src/Tests/Expressions.antt =====
-- A run of the debugger's expression reader on a concrete text.
use ic_competition.Base.{◌-◌, refl, none, some, List, [], ◌∷◌, arith, get_or}
use ic_competition.Sdb.Expr.Token.{Tokens}
use ic_competition.Sdb.Expr.Eval.{Machine}
use ic_competition.Sdb.Expr.Grammar.{
  Ast, number, paren, unary, binary, negate, add, mul, denote, symbol,
}
use ic_competition.Sdb.Expr.Lexer.{Host}
use ic_competition.Sdb.Expr.Lexer.Patterns.{posix_match}
use ic_competition.Sdb.Expr.Lexer.Lexemes.{
  Lexeme, text, blank, sign, minus, open_, dec, plus, close, star,
}
use ic_competition.Sdb.Expr.Meaning.{Gives, expr-denote}
use ic_competition.Sdb.Expr.Prefix.{raw_tokens}
use ic_competition.Sdb.Expr.{expr}

abbrev machine : Machine
machine = record { atoi = λ s. get_or s 0 b'0' - b'0'; pmem_read = λ a. some 7 }

abbrev host : Host
host = record {
  regexec = posix_match;
  strtoul16 = λ s. 0;
  sprintf_u = λ v. b'0' ∷ [];
  reg_str2val = λ s. none;
}

abbrev blank_tokens : Tokens
blank_tokens i = symbol 0

abbrev product : Ast
product =
    binary mul (unary negate (paren (binary add (number (b'2' ∷ [])) (number (b'3' ∷ [])))))
      (number (b'4' ∷ []))

-- -(2+3) *4
abbrev lexemes : List Lexeme
lexemes =
    sign minus
    ∷ sign open_
    ∷ dec (b'2' ∷ [])
    ∷ sign plus
    ∷ dec (b'3' ∷ [])
    ∷ sign close
    ∷ blank 0
    ∷ sign star
    ∷ dec (b'4' ∷ [])
    ∷ []

expr-denote_example : Gives (expr host machine blank_tokens (text lexemes)) (denote machine product)
expr-denote_example =
    expr-denote host machine blank_tokens product lexemes (λ i e. refl)
      (
        tt,
        tt,
        (
          tt,
          tt,
          (
            (omega arith, omega arith, (refl, tt)),
            (refl, refl),
            (
              tt,
              tt,
              (
                (omega arith, omega arith, (refl, tt)),
                (refl, refl),
                (
                  tt,
                  tt,
                  (
                    omega arith,
                    refl,
                    (tt, tt, ((omega arith, omega arith, (refl, tt)), (refl, refl), tt)),
                  ),
                ),
              ),
            ),
          ),
        ),
      )
      (omega arith) (unfold raw_tokens in refl)
      (omega arith, omega arith, (refl, (omega arith, omega arith, tt, tt)), tt)
