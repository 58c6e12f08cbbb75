-- ===== src/Sdb/Expr/Lexer.antt =====
-- make_token() of expr.c, over the host's regular expressions and number conversions.
pub mod Patterns
pub mod Lexemes
pub mod Step
pub mod Run
use ic_competition.Base.{
  ℕ, zero, suc, ◌+◌, ◌%◌, ◌^◌, Option, none, some, List, [], ◌∷◌, ◌==◌, ltb, if◌then◌else◌, length,
  take, drop,
}
use ic_competition.Sdb.Expr.Token.{Tokens, put, set_kind, notype, num, hnum, eq, neq, and, reg}

-- What make_token calls: `regexec` of a rule at the start of a text, which returns the match's
-- length if it matches there (`pmatch.rm_so == 0`); `strtoul` in base 16; `sprintf` of `%u`; and
-- reg_str2val().
pub record Host : Type 0 where
  pub regexec : ℕ → List ℕ → Option ℕ
  pub strtoul16 : List ℕ → ℕ
  pub sprintf_u : ℕ → List ℕ
  pub reg_str2val : List ℕ → Option ℕ

-- The token types of `rules[]`, in order: " +", "\\+", "\\-", "\\*", "/", "0x[0-9A-Fa-f]+", "[0-9]+",
-- "\\(", "\\)", "==", "!=", "&&", "^\\$\\S+".
abbrev pub rules : List ℕ
rules = notype ∷ b'+' ∷ b'-' ∷ b'*' ∷ b'/' ∷ hnum ∷ num ∷ b'(' ∷ b')' ∷ eq ∷ neq ∷ and ∷ reg ∷ []

-- The token array and `nr_token`; `rejected` is the result `false`, `looped` an exhausted fuel,
-- and `overrun` a token behind the 65536 of the array, which the code does not exclude.
pub data Lexed : Type 0 where
  lexed : Tokens → ℕ → Lexed
  rejected looped overrun : Lexed

module _ (host : Host) where
  open host use {regexec, strtoul16, sprintf_u, reg_str2val}

  -- The first rule from the `i`th on that matches, with its type and length.
  unfoldable pub first_match : ℕ → List ℕ → List ℕ → Option (ℕ × ℕ)
  first_match i [] e = none
  first_match i (k ∷ ks) e =
      let rest = first_match (i + 1) ks e in
      elim (regexec i e) [ none ↦ rest | some len ↦ some (k, len) ]

  abbrev pub push_num : Tokens → ℕ → List ℕ → Lexed
  push_num t n s = lexed (put t n (record { kind = num; str = s })) (n + 1)

  -- The `switch`, on the type `k` of the rule and the text `s` that it matched.
  unfoldable pub record_token : Tokens → ℕ → ℕ → List ℕ → Lexed
  record_token t n k s =
      if k == notype
      then lexed t n
      else if k == num
      then push_num t n s
      else if k == hnum
      then push_num t n (sprintf_u (strtoul16 s % 2 ^ 32))
      else if k == reg
      then (elim (reg_str2val (drop 1 s)) [ none ↦ rejected | some v ↦ push_num t n (sprintf_u v) ])
      else lexed (set_kind t n k) (n + 1)

  -- `while (e[position] != '\0')`, on the text from `position` on
  unfoldable pub make_token_loop : ℕ → Tokens → ℕ → List ℕ → Lexed
  make_token_loop zero t n e = looped
  make_token_loop (suc fuel) t n [] = lexed t n
  make_token_loop (suc fuel) t n (c ∷ e) = elim (first_match 0 rules (c ∷ e)) [
    | none ↦ rejected
    | some (k, len) ↦
        if ltb 31 len then rejected else (elim (record_token t n k (take len (c ∷ e))) [
          | lexed t' n' ↦
              let rest = make_token_loop fuel t' n' (drop len (c ∷ e)) in
              if ltb 65536 n' then overrun else rest
          | rejected ↦ rejected
          | looped ↦ looped
          | overrun ↦ overrun
        ])
  ]

  unfoldable pub make_token : Tokens → List ℕ → Lexed
  make_token t e = make_token_loop (length e + 1) t 0 e
