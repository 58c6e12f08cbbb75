-- ===== src/Sdb/Expr/Lexer/Step.antt =====
-- One round of make_token: which rule matches at the start of a lexeme, and how far.
use ic_competition.Base.{
  ℕ, zero, suc, ◌+◌, ◌<◌, ◌≡◌, refl, ap, sym, ◌∙◌, true, false, Option, none, some, List, [], ◌∷◌,
  ◌++◌, arith, ◌==◌, if◌then◌else◌, length, replicate, length-replicate,
}
use ic_competition.Klib.Stdlib.{is_digit}
use ic_competition.Sdb.Expr.Token.{notype, num, hnum, eq, neq, and, reg}
use ic_competition.Sdb.Expr.Lexer.{Host, first_match, rules}
use ic_competition.Sdb.Expr.Lexer.Patterns.{
  posix_match, span, is_blank, is_hex, is_solid, starts_with, AllIn, span-append,
}
use ic_competition.Sdb.Expr.Lexer.Lexemes.{
  Lexeme, blank, sign, dec, hex, register, Sign, plus, minus, star, slash, open_, close, equal,
  differ, conj, sign_text, sign_kind, lexeme_text, IsLexeme, Ends, is_x,
}

-- The type of the rule that reads a lexeme.
abbrev pub rule_kind : Lexeme → ℕ
rule_kind (blank n) = notype
rule_kind (sign s) = sign_kind s
rule_kind (dec s) = num
rule_kind (hex s) = hnum
rule_kind (register s v) = reg

span_blanks :
    (n : ℕ) (e : List ℕ)
    → starts_with is_blank e ≡ false
    → span is_blank (replicate n b' ' ++ e) ≡ n
unfolding span
span_blanks zero [] out = refl
span_blanks zero (x ∷ e) out = rw out
span_blanks (suc n) e out = ap suc (span_blanks n e out)

-- The first rule from the `i`th on that matches, by the patterns alone.
rule_match : ℕ → List ℕ → List ℕ → Option (ℕ × ℕ)
rule_match i [] e = none
rule_match i (k ∷ ks) e =
    let rest = rule_match (i + 1) ks e in
    elim (posix_match i e) [ none ↦ rest | some len ↦ some (k, len) ]

match_sign :
    (s : Sign) (e : List ℕ)
    → rule_match 0 rules (sign_text s ++ e) ≡ some (sign_kind s, length (sign_text s))
unfolding rule_match span
match_sign plus e = refl
match_sign minus e = refl
match_sign star e = refl
match_sign slash e = refl
match_sign open_ e = refl
match_sign close e = refl
match_sign equal e = refl
match_sign differ e = refl
match_sign conj e = refl

module _ (i k : ℕ) (ks e : List ℕ) where
  rule_match-none : posix_match i e ≡ none → rule_match i (k ∷ ks) e ≡ rule_match (i + 1) ks e
  unfolding rule_match
  rule_match-none h = rw h

  rule_match-some : {len : ℕ} → posix_match i e ≡ some len → rule_match i (k ∷ ks) e ≡ some (k, len)
  unfolding rule_match
  rule_match-some h = rw h

nonempty : (n m : ℕ) → 0 < n → (if n == 0 then none else some (m + n)) ≡ some (m + n)
nonempty n m h = ground arith

match_blank :
    (n : ℕ) (e : List ℕ)
    → starts_with is_blank e ≡ false
    → rule_match 0 rules (b' ' ∷ (replicate n b' ' ++ e)) ≡ some (notype, suc n)
match_blank n e out = rule_match-some 0 notype _ (b' ' ∷ (replicate n b' ' ++ e)) (
    unfold span in
    rw (span_blanks n e out) (nonempty (suc n) 0 (omega arith) ∙ ap some (omega arith)))

match_register :
    (s e : List ℕ)
    → 0 < length s
    → AllIn is_solid s
    → starts_with is_solid e ≡ false
    → rule_match 0 rules (b'$' ∷ (s ++ e)) ≡ some (reg, suc (length s))
unfolding rule_match span
match_register s e pos h out =
    rule_match-some 12 reg [] (b'$' ∷ (s ++ e))
      (rw (span-append is_solid s e h out) (nonempty (length s) 1 pos ∙ ap some (omega arith)))

match_hex :
    (s e : List ℕ)
    → 0 < length s
    → AllIn is_hex s
    → starts_with is_hex e ≡ false
    → rule_match 0 rules (b'0' ∷ b'x' ∷ (s ++ e)) ≡ some (hnum, suc (suc (length s)))
unfolding rule_match span
match_hex s e pos h out =
    rule_match-some 5 hnum (num ∷ b'(' ∷ b')' ∷ eq ∷ neq ∷ and ∷ reg ∷ []) (b'0' ∷ b'x' ∷ (s ++ e))
      (rw (span-append is_hex s e h out) (nonempty (length s) 2 pos ∙ ap some (omega arith)))

-- The second character of a decimal number, or what follows it, is no `x`.
no_x :
    (s e : List ℕ)
    → AllIn is_digit s
    → starts_with is_x e ≡ false
    → starts_with is_x (s ++ e) ≡ false
no_x [] e h out = out
no_x (x ∷ s) e h out = ground (arith, h.0)

no_hex : (c : ℕ) (e : List ℕ) → starts_with is_x e ≡ false → posix_match 5 (c ∷ e) ≡ none
no_hex c [] h = ground arith
no_hex c (x ∷ e) h = ground arith

match_dec :
    (c : ℕ) (s e : List ℕ)
    → AllIn is_digit (c ∷ s)
    → starts_with is_digit e ≡ false
    → starts_with is_x e ≡ false
    → rule_match 0 rules (c ∷ (s ++ e)) ≡ some (num, suc (length s))
match_dec c s e h out outx =
    let digit : is_digit c ≡ true = h.0 in
    let w = c ∷ (s ++ e) in
    rule_match-none 0 notype _ w (unfold span in ground arith)
    ∙ rule_match-none 1 b'+' _ w (ground arith)
    ∙ rule_match-none 2 b'-' _ w (ground arith)
    ∙ rule_match-none 3 b'*' _ w (ground arith)
    ∙ rule_match-none 4 b'/' _ w (ground arith)
    ∙ rule_match-none 5 hnum _ w (no_hex c (s ++ e) (no_x s e h.1 outx))
    ∙ rule_match-some 6 num _ w (
        rw (span-append is_digit (c ∷ s) e h out)
          (nonempty (suc (length s)) 0 (omega arith) ∙ ap some (omega arith)))

module _ (host : Host) (posix : (i : ℕ) (e : List ℕ) → host.regexec i e ≡ posix_match i e) where
  first_match-rule_match : (i : ℕ) (ks e : List ℕ) → first_match host i ks e ≡ rule_match i ks e
  unfolding first_match rule_match
  first_match-rule_match i [] e = refl
  first_match-rule_match i (k ∷ ks) e =
      ground (arith, posix i e, first_match-rule_match (i + 1) ks e)

  pub first_match-lexeme :
      (l : Lexeme) (e : List ℕ)
      → IsLexeme host l
      → Ends host l e
      → first_match host 0 rules (lexeme_text l ++ e) ≡ some (rule_kind l, length (lexeme_text l))
  first_match-lexeme (blank n) e h ends =
      first_match-rule_match 0 rules _
      ∙ match_blank n e ends
      ∙ ap (λ j. some (notype, suc j)) (sym (length-replicate n 32))
  first_match-lexeme (sign s) e h ends = first_match-rule_match 0 rules _ ∙ match_sign s e
  first_match-lexeme (dec []) e h ends = absurd (omega (arith, h.0))
  first_match-lexeme (dec (c ∷ s)) e h ends =
      first_match-rule_match 0 rules _ ∙ match_dec c s e h.2 ends.0 ends.1
  first_match-lexeme (hex s) e h ends =
      first_match-rule_match 0 rules _ ∙ match_hex s e h.0 h.2 ends
  first_match-lexeme (register s v) e h ends =
      first_match-rule_match 0 rules _ ∙ match_register s e h.0 h.2 ends
