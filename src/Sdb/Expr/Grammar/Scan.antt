-- ===== src/Sdb/Expr/Grammar/Scan.antt =====
-- The count of check_parentheses over the tokens of an expression.
use ic_competition.Base.{
  ℕ, suc, ◌+◌, ◌≤◌, ◌<◌, ◌≡◌, refl, ap, ◌∙◌, Bool, true, List, [], ◌∷◌, ◌++◌, arith, length, ℤ, pos,
  negsuc,
}
use ic_competition.Sdb.Expr.Token.{Token, Tokens}
use ic_competition.Sdb.Expr.Eval.{Parens, paren_step, paren_loop}
use ic_competition.Sdb.Expr.Grammar.{
  Ast, number, paren, unary, binary, tokens, Holds, symbol, bin_kind, BinOp, add, sub, mul, div,
  eql, neq_, both, negate, load,
}

-- The loop as a function of the tokens alone.
abbrev pub paren_fold : List Token → Parens → Parens
paren_fold [] s = s
paren_fold (x ∷ xs) s = paren_fold xs (paren_step x.kind s)

pub Holds-append-left :
    (t : Tokens) (p : ℕ) (xs ys : List Token) → Holds t p (xs ++ ys) → Holds t p xs
Holds-append-left t p [] ys h = tt
Holds-append-left t p (x ∷ xs) ys h = (h.0, h.1, Holds-append-left t (p + 1) xs ys h.2)

pub Holds-append-right :
    (t : Tokens) (p q : ℕ) (xs ys : List Token)
    → q ≡ p + length xs
    → Holds t p (xs ++ ys)
    → Holds t q ys
Holds-append-right t p q [] ys e h = let e' : q ≡ p = omega arith in rw e' h
Holds-append-right t p q (x ∷ xs) ys e h = Holds-append-right t (p + 1) q xs ys (omega arith) h.2

pub Holds-append :
    (t : Tokens) (p : ℕ) (xs ys : List Token)
    → Holds t p xs
    → Holds t (p + length xs) ys
    → Holds t p (xs ++ ys)
Holds-append t p [] ys h k = let e : p + 0 ≡ p = omega arith in rw e at k
Holds-append t p (x ∷ xs) ys h k =
    let e : p + suc (length xs) ≡ p + 1 + length xs = omega arith in
    (h.0, h.1, Holds-append t (p + 1) xs ys h.2 (rw e at k))

-- What holds up to a place holds of every array that is the same up to there.
pub Holds-frame :
    (t t' : Tokens) (p : ℕ) (xs : List Token)
    → ((j : ℕ) → p ≤ j → j < p + length xs → t' j ≡ t j)
    → Holds t p xs
    → Holds t' p xs
Holds-frame t t' p [] same h = tt
Holds-frame t t' p (x ∷ xs) same h =
    let e = same p (omega arith) (omega arith) in
    (
      rw e h.0,
      (λ k. rw e (h.1 k)),
      Holds-frame t t' (p + 1) xs (λ j lo lt. same j (omega arith) (omega arith)) h.2,
    )

pub paren_loop-fold :
    (t : Tokens) (p : ℕ) (xs : List Token) (s : Parens)
    → Holds t p xs
    → paren_loop (length xs) p t s ≡ paren_fold xs s
unfolding paren_loop
paren_loop-fold t p [] s h = refl
paren_loop-fold t p (x ∷ xs) s h =
    paren_loop-fold t (p + 1) xs _ h.2 ∙ ap (λ k. paren_fold xs (paren_step k s)) h.0

pub paren_fold-append :
    (xs ys : List Token) (s : Parens) → paren_fold (xs ++ ys) s ≡ paren_fold ys (paren_fold xs s)
paren_fold-append [] ys s = refl
paren_fold-append (x ∷ xs) ys s = paren_fold-append xs ys (paren_step x.kind s)

abbrev pub parens : ℤ → Bool → Bool → Parens
parens c f s = record { cnt = c; flag = f; success = s }

-- An operator changes no count.
op_above :
    (o : BinOp) (n : ℕ) (f s : Bool)
    → paren_step (bin_kind o) (parens (pos n) f s) ≡ parens (pos n) f s
op_above add n f s = refl
op_above sub n f s = refl
op_above mul n f s = refl
op_above div n f s = refl
op_above eql n f s = refl
op_above neq_ n f s = refl
op_above both n f s = refl

pub op_below :
    (o : BinOp) (f s : Bool)
    → paren_step (bin_kind o) (parens (negsuc 0) f s) ≡ parens (negsuc 0) true s
op_below add f s = refl
op_below sub f s = refl
op_below mul f s = refl
op_below div f s = refl
op_below eql f s = refl
op_below neq_ f s = refl
op_below both f s = refl

-- At a count of 0 or more the tokens of an expression change nothing.
pub paren_fold_above :
    (e : Ast) (n : ℕ) (f s : Bool) → paren_fold (tokens e) (parens (pos n) f s) ≡ parens (pos n) f s
unfolding tokens
paren_fold_above (number t) n f s = refl
paren_fold_above (paren a) n f s =
    paren_fold-append (tokens a) (symbol b')' ∷ []) (parens (pos (suc n)) f s)
    ∙ rw (paren_fold_above a (suc n) f s)
paren_fold_above (unary negate a) n f s = paren_fold_above a n f s
paren_fold_above (unary load a) n f s = paren_fold_above a n f s
paren_fold_above (binary o a b) n f s =
    paren_fold-append (tokens a) (symbol (bin_kind o) ∷ tokens b) (parens (pos n) f s)
    ∙ ap (paren_fold (symbol (bin_kind o) ∷ tokens b)) (paren_fold_above a n f s)
    ∙ ap (paren_fold (tokens b)) (op_above o n f s)
    ∙ paren_fold_above b n f s

-- At a count of -1 they set the flag.
pub paren_fold_below :
    (e : Ast) (f s : Bool)
    → paren_fold (tokens e) (parens (negsuc 0) f s) ≡ parens (negsuc 0) true s
unfolding tokens
paren_fold_below (number t) f s = refl
paren_fold_below (paren a) f s =
    paren_fold-append (tokens a) (symbol b')' ∷ []) (parens (pos 0) f s)
    ∙ rw (paren_fold_above a 0 f s)
paren_fold_below (unary negate a) f s = paren_fold_below a true s
paren_fold_below (unary load a) f s = paren_fold_below a true s
paren_fold_below (binary o a b) f s =
    paren_fold-append (tokens a) (symbol (bin_kind o) ∷ tokens b) (parens (negsuc 0) f s)
    ∙ ap (paren_fold (symbol (bin_kind o) ∷ tokens b)) (paren_fold_below a f s)
    ∙ ap (paren_fold (tokens b)) (op_below o true s)
    ∙ paren_fold_below b true s

-- The count, the flag and the success of a loop that goes on with one closing parenthesis and ends
-- at -1 with the flag set from the start.
pub before_close :
    (st : Parens) (s : Bool)
    → paren_step b')' st ≡ parens (negsuc 0) true s
    → (st.cnt ≡ pos 0) × (st.success ≡ s)
before_close st s e = ground arith

pub paren_fold-flag :
    (xs : List Token) (st : Parens) → st.flag ≡ true → (paren_fold xs st).flag ≡ true
paren_fold-flag [] st h = h
paren_fold-flag (x ∷ xs) st h = paren_fold-flag xs (paren_step x.kind st) (ground arith)
