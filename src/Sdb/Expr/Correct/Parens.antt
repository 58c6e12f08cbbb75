-- ===== src/Sdb/Expr/Correct/Parens.antt =====
-- check_parentheses and find_main_op on the tokens of a well-formed expression.
use mathlib.Core.List.{append_assoc}
use mathlib.Core.Path.{ap₂}
use ic_competition.Base.{
  ℕ, suc, ◌+◌, ◌-◌, ◌<◌, ◌≡◌, ◌≢◌, refl, ap, sym, ◌∙◌, ◌⊎◌, inl, inr, subst, Bool, true, false, not,
  ◌&&◌, none, some, List, [], ◌∷◌, ◌++◌, arith, ◌==◌, ltb, lt→ltb, length, length-append, pos,
  negsuc, Bool-cases,
}
use ic_competition.Sdb.Expr.Token.{Token, Tokens, kind_at}
use ic_competition.Sdb.Expr.Eval.{
  Parens, paren_step, paren_loop, check_parentheses, find_main_op, op_loop, Search,
}
use ic_competition.Sdb.Expr.Grammar.{
  Ast, number, paren, unary, binary, tokens, Holds, symbol, bin_kind, BinOp, UnOp, level, IsWf,
}
use ic_competition.Sdb.Expr.Grammar.Scan.{
  paren_loop-fold, paren_fold, paren_fold-append, paren_fold_above, paren_fold_below,
  paren_fold-flag, before_close, parens, op_below, Holds-append-left, Holds-append-right,
}
use ic_competition.Sdb.Expr.Grammar.Search.{
  op_loop-fold, op_fold-tokens, main_at, search, un_kind_ne,
}

-- The loop's end, with the flag `f`, at a count of 0.
check_at :
    (t : Tokens) (p n e : ℕ) (s f : Bool)
    → kind_at t p ≡ b'('
    → kind_at t (p + suc n) ≡ b')'
    → e ≡ p + suc (suc n)
    → paren_loop n (p + 1) t (parens (pos 0) false s) ≡ parens (pos 0) f s
    → check_parentheses t p e s ≡ (not f, s)
unfolding check_parentheses
check_at t p n e s f open_ close ee run =
    let e1 : e - 1 ≡ p + suc n = omega arith in
    let e2 : e - p - 2 ≡ n = omega arith in rw (e1, e2, open_, close, run) (and_true s)
  where
    and_true : (b : Bool) → ◌≡◌ {A = Bool × Bool} (not f, b && true) (not f, b)
    and_true true = refl
    and_true false = refl

check_not :
    (t : Tokens) (p e : ℕ) (s : Bool)
    → (kind_at t p ≢ b'(') ⊎ (kind_at t (e - 1) ≢ b')')
    → check_parentheses t p e s ≡ (false, s)
unfolding check_parentheses
check_not t p e s h = ground arith

-- Parentheses round an expression match each other.
pub check_paren :
    (t : Tokens) (p e : ℕ) (s : Bool) (a : Ast)
    → Holds t p (tokens (paren a))
    → e ≡ p + length (tokens (paren a))
    → check_parentheses t p e s ≡ (true, s)
unfolding tokens
check_paren t p e s a h ee =
    check_at t p (length (tokens a)) e s false h.0
      (Holds-append-right t (p + 1) (p + suc (length (tokens a))) (tokens a) _ (omega arith) h.2).0
      (omega (arith, length-append (tokens a) (symbol b')' ∷ [])))
      (paren_loop-fold t (p + 1) (tokens a) _ (Holds-append-left t (p + 1) (tokens a) _ h.2)
        ∙ paren_fold_above a 0 false s)

-- An expression's first token, and its last.
pub record Ends (xs : List Token) : Type 0 where
  pub first : Token
  pub behind : List Token
  pub front : List Token
  pub last : Token
  pub starts : xs ≡ first ∷ behind
  pub stops : xs ≡ front ++ last ∷ []

Ends-one : (x : Token) → Ends (x ∷ [])
Ends-one x = record { first = x; behind = []; front = []; last = x; starts = refl; stops = refl }

Ends-cons : (x : Token) {xs : List Token} → Ends xs → Ends (x ∷ xs)
Ends-cons x {xs} r = record {
  first = x;
  behind = xs;
  front = x ∷ r.front;
  last = r.last;
  starts = refl;
  stops = ap (◌∷◌ x) r.stops;
}

Ends-append : {xs ys : List Token} → Ends xs → Ends ys → Ends (xs ++ ys)
Ends-append {xs} {ys} r q = record {
  first = r.first;
  behind = r.behind ++ ys;
  front = xs ++ q.front;
  last = q.last;
  starts = ap (λ zs. zs ++ ys) r.starts;
  stops = ap (λ zs. xs ++ zs) q.stops ∙ sym (append_assoc xs q.front (q.last ∷ []));
}

pub Ends-tokens : (a : Ast) → Ends (tokens a)
unfolding tokens
Ends-tokens (number s) = Ends-one _
Ends-tokens (paren a) = Ends-cons _ (Ends-append (Ends-tokens a) (Ends-one _))
Ends-tokens (unary o a) = Ends-cons _ (Ends-tokens a)
Ends-tokens (binary o a b) = Ends-append (Ends-tokens a) (Ends-cons _ (Ends-tokens b))

-- The parentheses at the two ends of `a o b` do not match each other: the count falls to -1 at the
-- end of `a`.
inner_fold :
    (o : BinOp) (a b : Ast) (s : Bool) (x y : Token) (xs ys : List Token)
    → tokens a ≡ x ∷ xs
    → tokens b ≡ ys ++ y ∷ []
    → x.kind ≡ b'('
    → y.kind ≡ b')'
    → paren_fold (xs ++ symbol (bin_kind o) ∷ ys) (parens (pos 0) false s) ≡ parens (pos 0) true s
inner_fold o a b s x y xs ys ea eb kx ky =
    paren_fold-append xs (symbol (bin_kind o) ∷ ys) (parens (pos 0) false s)
    ∙ ap (paren_fold (symbol (bin_kind o) ∷ ys)) left
    ∙ ap (paren_fold ys) (op_below o true s)
    ∙ ground (arith, before_close rest s right, paren_fold-flag ys (parens (negsuc 0) true s) refl)
  where
    left : paren_fold xs (parens (pos 0) false s) ≡ parens (negsuc 0) true s
    left =
        ap (λ k. paren_fold xs (paren_step k (parens (negsuc 0) false s))) (sym kx)
        ∙ ap (λ zs. paren_fold zs (parens (negsuc 0) false s)) (sym ea)
        ∙ paren_fold_below a false s

    rest : Parens
    rest = paren_fold ys (parens (negsuc 0) true s)

    right : paren_step b')' rest ≡ parens (negsuc 0) true s
    right =
        ap (λ k. paren_step k rest) (sym ky)
        ∙ sym (paren_fold-append ys (y ∷ []) (parens (negsuc 0) true s))
        ∙ ap (λ zs. paren_fold zs (parens (negsuc 0) true s)) (sym eb)
        ∙ paren_fold_below b true s

check_between :
    (t : Tokens) (p e : ℕ) (s : Bool) (x y : Token) (mid : List Token)
    → Holds t p (x ∷ (mid ++ y ∷ []))
    → e ≡ p + suc (suc (length mid))
    → (x.kind ≡ b'('
        → y.kind ≡ b')'
        → paren_fold mid (parens (pos 0) false s) ≡ parens (pos 0) true s)
    → check_parentheses t p e s ≡ (false, s)
check_between t p e s x y mid h ee inner =
    let at_end : kind_at t (p + suc (length mid)) ≡ y.kind =
      (Holds-append-right t (p + 1) (p + suc (length mid)) mid (y ∷ []) (omega arith) h.2).0 in
    let e1 : e - 1 ≡ p + suc (length mid) = omega arith in
    elim (Bool-cases (x.kind == b'(')) [
      | inr differ ↦ check_not t p e s (inl (ground (arith, h.0)))
      | inl open_ ↦ elim (Bool-cases (y.kind == b')')) [
        | inr differ ↦ check_not t p e s (inr (rw e1 (ground (arith, at_end))))
        | inl close ↦
            let kx : x.kind ≡ b'(' = ground arith in
            let ky : y.kind ≡ b')' = ground arith in
            check_at t p (length mid) e s true (h.0 ∙ kx) (at_end ∙ ky) ee (
              paren_loop-fold t (p + 1) mid _ (Holds-append-left t (p + 1) mid _ h.2) ∙ inner kx ky)
      ]
    ]

module _ (o : BinOp) (a b : Ast) (r : Ends (tokens a)) (q : Ends (tokens b)) where
  abbrev between : List Token
  between = r.behind ++ symbol (bin_kind o) ∷ q.front

  tokens-between : tokens (binary o a b) ≡ r.first ∷ (between ++ q.last ∷ [])
  unfolding tokens
  tokens-between =
      ap₂ (λ xs ys. xs ++ symbol (bin_kind o) ∷ ys) r.starts q.stops
      ∙ ap (◌∷◌ r.first) (sym (append_assoc r.behind (symbol (bin_kind o) ∷ q.front) (q.last ∷ [])))

-- So the parentheses at the ends of a binary expression, if any, are not taken for a pair.
pub check_binary :
    (t : Tokens) (p e : ℕ) (s : Bool) (o : BinOp) (a b : Ast)
    → Holds t p (tokens (binary o a b))
    → e ≡ p + length (tokens (binary o a b))
    → check_parentheses t p e s ≡ (false, s)
check_binary t p e s o a b h ee =
    let r = Ends-tokens a in
    let q = Ends-tokens b in
    let zs = tokens-between o a b r q in
    check_between t p e s r.first q.last (between o a b r q) (subst (Holds t p) zs h)
      (omega (arith, ap length zs, length-append (between o a b r q) (q.last ∷ [])))
      (inner_fold o a b s r.first q.last r.behind q.front r.starts q.stops)

-- A prefix operator is no parenthesis.
pub check_unary :
    (t : Tokens) (p e : ℕ) (s : Bool) (o : UnOp) (a : Ast)
    → Holds t p (tokens (unary o a))
    → check_parentheses t p e s ≡ (false, s)
unfolding tokens
check_unary t p e s o a h = check_not t p e s (inl (ground (arith, h.0, un_kind_ne o)))

-- The main operator is the outermost one.
pub find_main_op-tokens :
    (t : Tokens) (p e : ℕ) (a : Ast)
    → Holds t p (tokens a)
    → e ≡ p + length (tokens a)
    → IsWf a
    → 0 < level a
    → find_main_op t p e ≡ some (main_at a p)
unfolding find_main_op
find_main_op-tokens t p e a h ee w some_op =
    let n : e - p ≡ length (tokens a) = omega arith in
    let yes_op : ltb 0 (level a) ≡ true = lt→ltb 0 (level a) some_op in
    ap (λ (s : Search). s.main_op)
      (ap (λ k. op_loop k p t (search (pos 0) 0 none)) n
        ∙ op_loop-fold t p (tokens a) (search (pos 0) 0 none) h
        ∙ op_fold-tokens a p 0 none w)
    ∙ rw yes_op
