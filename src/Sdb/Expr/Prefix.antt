-- ===== src/Sdb/Expr/Prefix.antt =====
-- The pass of expr() that tells prefix operators from binary ones, against the grammar.
use mathlib.Core.List.{append_assoc, append-nil}
use ic_competition.Base.{
  ℕ, ◌+◌, ◌-◌, ◌<◌, ◌≡◌, ◌≢◌, ◌⊎◌, inl, inr, refl, ap, sym, subst, ◌∙◌, Bool, true, false, ◌&&◌,
  ◌||◌, List, [], ◌∷◌, ◌++◌, arith, ◌==◌, if◌then◌else◌, length, ==-refl,
}
use ic_competition.Sdb.Expr.Token.{
  Token, Tokens, kind_at, set_kind, put, num, deref, inv, is_operator,
}
use ic_competition.Sdb.Expr.Grammar.{
  Ast, number, paren, unary, binary, BinOp, UnOp, add, sub, mul, div, eql, neq_, both, negate, load,
  tokens, symbol, bin_kind, un_kind, rank, level, IsWf, Holds,
}
use ic_competition.Sdb.Expr.Grammar.Scan.{Holds-frame}
use ic_competition.Sdb.Expr.{replace_prefix}

abbrev pub raw_un : UnOp → ℕ
raw_un negate = b'-'
raw_un load = b'*'

-- The tokens of an expression as make_token() leaves them: a prefix operator looks like a binary one.
unfoldable pub raw_tokens : Ast → List Token
raw_tokens (number s) = record { kind = num; str = s } ∷ []
raw_tokens (paren a) = symbol b'(' ∷ (raw_tokens a ++ symbol b')' ∷ [])
raw_tokens (unary o a) = symbol (raw_un o) ∷ raw_tokens a
raw_tokens (binary o a b) = raw_tokens a ++ symbol (bin_kind o) ∷ raw_tokens b

-- Whether a token of this type lets a prefix operator follow.
abbrev opens : ℕ → Bool
opens k = is_operator k || k == b'('

abbrev convert : Bool → ℕ → ℕ
convert o k = if k == b'*' && o then deref else if k == b'-' && o then inv else k

-- The pass on a list; `o` tells whether a prefix operator may stand at its head.
pass : Bool → List Token → List Token
pass o [] = []
pass o (x ∷ xs) =
    record { kind = convert o x.kind; str = x.str } ∷ pass (opens (convert o x.kind)) xs

-- Where a prefix operator may stand in front of place `p`.
abbrev context : Tokens → ℕ → Bool
context t p = p == 0 || is_operator (kind_at t (p - 1)) || kind_at t (p - 1) == b'('

convert-num : (o : Bool) (k : ℕ) → convert o k ≡ num → k ≡ num
convert-num o k h = ground arith

put_ne : (t : Tokens) (i j : ℕ) (x : Token) → i ≢ j → put t i x j ≡ t j
put_ne t i j x ne = ground arith

context-suc : (t : Tokens) (p : ℕ) → context t (p + 1) ≡ opens (kind_at t p)
context-suc t p =
    let e : p + 1 - 1 ≡ p = omega arith in
    let ne : (p + 1 == 0) ≡ false = ground arith in rw (e, ne)

record Passed (t : Tokens) (p : ℕ) (xs : List Token) (t' : Tokens) : Type 0 where
  holds : Holds t' p (pass (context t p) xs)
  before : (j : ℕ) → j < p → t' j ≡ t j

replace_prefix-Passed :
    (t : Tokens) (p : ℕ) (xs : List Token)
    → Holds t p xs
    → Passed t p xs (replace_prefix (length xs) p t)
unfolding replace_prefix pass
replace_prefix-Passed t p [] h = record { holds = tt; before = λ j lt. refl }
replace_prefix-Passed t p (x ∷ xs) h =
    let o = context t p in
    let k = convert o (kind_at t p) in
    let t1 = set_kind t p k in
    let here : t1 p ≡ record { kind = k; str = (t p).str } = rw (==-refl p) in
    let same : k ≡ convert o x.kind = rw h.0 in
    let kind_here : kind_at t1 p ≡ convert o x.kind = ap (λ y. y.kind) here ∙ same in
    let next : context t1 (p + 1) ≡ opens (convert o x.kind) =
      context-suc t1 p ∙ ap opens kind_here in
    let r =
      replace_prefix-Passed t1 (p + 1) xs
        (Holds-frame t t1 (p + 1) xs (λ j lo lt. put_ne t p j _ (omega arith)) h.2) in
    record {
      holds = (
        ap (λ y. y.kind) (r.before p (omega arith)) ∙ kind_here,
        (λ e. ap (λ y. y.str) (r.before p (omega arith) ∙ here) ∙ h.1 (convert-num o x.kind e)),
        subst (λ b. Holds (replace_prefix (length xs) (p + 1) t1) (p + 1) (pass b xs)) next r.holds,
      );
      before = λ j lt. r.before j (omega arith) ∙ put_ne t p j _ (omega arith);
    }

bin_opens : (o : BinOp) → opens (bin_kind o) ≡ true
bin_opens add = refl
bin_opens sub = refl
bin_opens mul = refl
bin_opens div = refl
bin_opens eql = refl
bin_opens neq_ = refl
bin_opens both = refl

bin_convert : (o : BinOp) → convert false (bin_kind o) ≡ bin_kind o
bin_convert o = ground arith

bin_level : (o : BinOp) → rank o ≢ 0
bin_level o = ground arith

un_convert : (o : UnOp) → convert true (raw_un o) ≡ un_kind o
un_convert negate = refl
un_convert load = refl

un_opens : (o : UnOp) → opens (un_kind o) ≡ false
un_opens negate = refl
un_opens load = refl

pass-raw_tokens :
    (a : Ast) (o : Bool) (rest : List Token)
    → IsWf a
    → (o ≡ true) ⊎ (level a ≡ 0)
    → pass o (raw_tokens a ++ rest) ≡ tokens a ++ pass false rest
unfolding pass raw_tokens tokens
pass-raw_tokens (number s) o rest w h = refl
pass-raw_tokens (paren a) o rest w h = ap (◌∷◌ (symbol b'(')) (
    ap (pass true) (append_assoc (raw_tokens a) (symbol b')' ∷ []) rest)
    ∙ pass-raw_tokens a true (symbol b')' ∷ rest) w (inl refl)
    ∙ sym (append_assoc (tokens a) (symbol b')' ∷ []) (pass false rest)))
pass-raw_tokens (unary u a) o rest w (inl e) =
    rw (e, un_convert u, un_opens u)
      (ap (◌∷◌ (symbol (un_kind u))) (pass-raw_tokens a false rest w.1 (inr w.0)))
pass-raw_tokens (unary u a) o rest w (inr e) = absurd (omega (arith, e))
pass-raw_tokens (binary b a c) o rest w (inr e) = absurd (bin_level b e)
pass-raw_tokens (binary b a c) o rest w (inl e) =
    ap (pass o) (append_assoc (raw_tokens a) (symbol (bin_kind b) ∷ raw_tokens c) rest)
    ∙ pass-raw_tokens a o (symbol (bin_kind b) ∷ (raw_tokens c ++ rest)) w.2 (inl e)
    ∙ ap (λ ys. tokens a ++ ys)
        (rw (bin_convert b, bin_opens b)
          (ap (◌∷◌ (symbol (bin_kind b))) (pass-raw_tokens c true rest w.3 (inl refl))))
    ∙ sym (append_assoc (tokens a) (symbol (bin_kind b) ∷ tokens c) (pass false rest))

-- Where the token array holds what make_token() leaves of a well-formed expression, from its start
-- on, the pass leaves the tokens that the grammar gives it.
pub replace_prefix-tokens :
    (t : Tokens) (a : Ast)
    → IsWf a
    → Holds t 0 (raw_tokens a)
    → Holds (replace_prefix (length (raw_tokens a)) 0 t) 0 (tokens a)
replace_prefix-tokens t a w h =
    subst (Holds (replace_prefix (length (raw_tokens a)) 0 t) 0)
      (ap (pass true) (sym (append-nil (raw_tokens a)))
        ∙ pass-raw_tokens a true [] w (inl refl)
        ∙ (unfold pass in append-nil (tokens a)))
      (replace_prefix-Passed t 0 (raw_tokens a) h).holds
