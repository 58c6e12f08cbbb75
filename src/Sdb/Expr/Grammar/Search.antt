-- ===== src/Sdb/Expr/Grammar/Search.antt =====
-- The search of find_main_op over the tokens of an expression.
use mathlib.Core.Path.{ap₂}
use native.Mathlib.Nat.{add-zero}
use ic_competition.Base.{
  ℕ, zero, suc, ◌+◌, ◌≤◌, ◌<◌, ◌≡◌, ◌≢◌, refl, ap, ◌∙◌, Option, some, List, [], ◌∷◌, ◌++◌, arith,
  ltb, if◌then◌else◌, length, ℤ, pos,
}
use ic_competition.Sdb.Expr.Token.{Token, Tokens, kind_at, num, op_hirc}
use ic_competition.Sdb.Expr.Eval.{Search, op_step, op_loop}
use ic_competition.Sdb.Expr.Grammar.{
  Ast, number, paren, unary, binary, tokens, Holds, symbol, bin_kind, un_kind, BinOp, UnOp, add,
  sub, mul, div, eql, neq_, both, negate, load, rank, level, IsWf,
}

-- The loop over two neighbouring ranges, the later one first.
op_loop-split :
    (m n j p : ℕ) (t : Tokens) (s : Search)
    → j ≡ n + m
    → op_loop j p t s ≡ op_loop n p t (op_loop m (p + n) t s)
unfolding op_loop
op_loop-split zero n j p t s e = let e' : j ≡ n = omega arith in rw e'
op_loop-split (suc m) n zero p t s e = absurd (omega arith)
op_loop-split (suc m) n (suc j) p t s e =
    op_loop-split m n j p t _ (omega arith)
    ∙ ap (λ i. op_loop n p t (op_loop m (p + n) t (op_step (kind_at t i) i s))) (omega arith)

abbrev pub search : ℤ → ℕ → Option ℕ → Search
search m l o = record { musk = m; op_hirc_level = l; main_op = o }

-- The index of the outermost operator of the expression that starts at `p`.
abbrev pub main_at : Ast → ℕ → ℕ
main_at (number s) p = p
main_at (paren a) p = p
main_at (unary o a) p = p
main_at (binary o a b) p = p + length (tokens a)

-- The search as a function of the tokens, given with the index of the first.
abbrev pub op_fold : ℕ → List Token → Search → Search
op_fold p [] s = s
op_fold p (x ∷ xs) s = op_step x.kind p (op_fold (p + 1) xs s)

op_fold-append :
    (p q : ℕ) (xs ys : List Token) (s : Search)
    → q ≡ p + length xs
    → op_fold p (xs ++ ys) s ≡ op_fold p xs (op_fold q ys s)
op_fold-append p q [] ys s e = let e' : q ≡ p = omega arith in rw e'
op_fold-append p q (x ∷ xs) ys s e =
    ap (op_step x.kind p) (op_fold-append (p + 1) q xs ys s (omega arith))

op_loop_one : (p : ℕ) (t : Tokens) (s : Search) → op_loop 1 p t s ≡ op_step (kind_at t p) p s
unfolding op_loop
op_loop_one p t s = rw add-zero

pub op_loop-fold :
    (t : Tokens) (p : ℕ) (xs : List Token) (s : Search)
    → Holds t p xs
    → op_loop (length xs) p t s ≡ op_fold p xs s
op_loop-fold t p [] s h = unfold op_loop in refl
op_loop-fold t p (x ∷ xs) s h =
    op_loop-split (length xs) 1 (suc (length xs)) p t s (omega arith)
    ∙ op_loop_one p t _
    ∙ ap (op_step (kind_at t p) p) (op_loop-fold t (p + 1) xs s h.2)
    ∙ ap (λ k. op_step k p (op_fold (p + 1) xs s)) h.0

-- What is no parenthesis is passed over inside parentheses.
op_inside :
    (k i n l : ℕ) (o : Option ℕ)
    → k ≢ b'('
    → k ≢ b')'
    → op_step k i (search (pos (suc n)) l o) ≡ search (pos (suc n)) l o
op_inside k i n l o h h' = ground arith

bin_kind_ne : (o : BinOp) → (bin_kind o ≢ b'(') × (bin_kind o ≢ b')')
bin_kind_ne add = omega arith
bin_kind_ne sub = omega arith
bin_kind_ne mul = omega arith
bin_kind_ne div = omega arith
bin_kind_ne eql = omega arith
bin_kind_ne neq_ = omega arith
bin_kind_ne both = omega arith

pub un_kind_ne : (o : UnOp) → (un_kind o ≢ b'(') × (un_kind o ≢ b')')
un_kind_ne negate = omega arith
un_kind_ne load = omega arith

op_fold_inside :
    (e : Ast) (p n l : ℕ) (o : Option ℕ)
    → op_fold p (tokens e) (search (pos (suc n)) l o) ≡ search (pos (suc n)) l o
unfolding tokens
op_fold_inside (number s) p n l o = op_inside num p n l o (omega arith) (omega arith)
op_fold_inside (paren a) p n l o = ap (op_step b'(' p) (
    op_fold-append (p + 1) _ (tokens a) (symbol b')' ∷ []) _ refl
    ∙ op_fold_inside a (p + 1) (suc n) l o)
op_fold_inside (unary u a) p n l o =
    ap (op_step (un_kind u) p) (op_fold_inside a (p + 1) n l o)
    ∙ op_inside (un_kind u) p n l o (un_kind_ne u).0 (un_kind_ne u).1
op_fold_inside (binary u a b) p n l o =
    op_fold-append p _ (tokens a) (symbol (bin_kind u) ∷ tokens b) _ refl
    ∙ ap (λ s. op_fold p (tokens a) (op_step (bin_kind u) (p + length (tokens a)) s))
        (op_fold_inside b _ n l o)
    ∙ ap (op_fold p (tokens a)) (op_inside (bin_kind u) _ n l o (bin_kind_ne u).0 (bin_kind_ne u).1)
    ∙ op_fold_inside a p n l o

-- What the search makes of an operator of level `k` at `i`, outside parentheses.
abbrev pub better : ℕ → ℕ → ℕ → Option ℕ → Search
better k i l o = if ltb l k then search (pos 0) k (some i) else search (pos 0) l o

op_outside :
    (k i l : ℕ) (o : Option ℕ)
    → k ≢ b'('
    → k ≢ b')'
    → op_step k i (search (pos 0) l o) ≡ better (op_hirc k) i l o
op_outside k i l o h h' = ground arith

-- A looser operator to the left of a tighter one takes its place.
better_left :
    (k m x i j l : ℕ) (o : Option ℕ)
    → m < k
    → x ≢ b'('
    → x ≢ b')'
    → op_hirc x ≡ k
    → op_step x i (better m j l o) ≡ better k i l o
better_left k m x i j l o h a b e = ground arith

-- One that is no looser does not.
better_right :
    (k m i j l : ℕ) (o : Option ℕ)
    → m ≤ k
    → (if ltb l k then better m j k (some i) else better m j l o) ≡ better k i l o
better_right k m i j l o h = ground arith

-- `better`, under a function of the search.
better-ap :
    (f : Search → Search) (k i l : ℕ) (o : Option ℕ)
    → f (better k i l o)
      ≡ (if ltb l k then f (search (pos 0) k (some i)) else f (search (pos 0) l o))
better-ap f k i l o = ground arith

pub bin_kind_hirc : (o : BinOp) → op_hirc (bin_kind o) ≡ rank o
unfolding op_hirc
bin_kind_hirc add = refl
bin_kind_hirc sub = refl
bin_kind_hirc mul = refl
bin_kind_hirc div = refl
bin_kind_hirc eql = refl
bin_kind_hirc neq_ = refl
bin_kind_hirc both = refl

pub un_kind_hirc : (u : UnOp) → op_hirc (un_kind u) ≡ 1
unfolding op_hirc
un_kind_hirc negate = refl
un_kind_hirc load = refl

better-zero : (p l : ℕ) (o : Option ℕ) → search (pos 0) l o ≡ better 0 p l o
better-zero p l o = ground arith

-- The search over an expression's tokens finds its outermost operator, if that binds more loosely
-- than what was found before, and nothing otherwise.
pub op_fold-tokens :
    (e : Ast) (p l : ℕ) (o : Option ℕ)
    → IsWf e
    → op_fold p (tokens e) (search (pos 0) l o) ≡ better (level e) (main_at e p) l o
unfolding tokens
op_fold-tokens (number s) p l o w =
    op_outside num p l o (omega arith) (omega arith)
    ∙ ap (λ k. better k p l o) (unfold op_hirc in refl)
op_fold-tokens (paren a) p l o w =
    ap (op_step b'(' p) (
      op_fold-append (p + 1) _ (tokens a) (symbol b')' ∷ []) _ refl
      ∙ op_fold_inside a (p + 1) 0 l o)
    ∙ better-zero p l o
op_fold-tokens (unary u a) p l o w =
    ap (op_step (un_kind u) p)
      (op_fold-tokens a (p + 1) l o w.1 ∙ ap (λ k. better k (main_at a (p + 1)) l o) w.0)
    ∙ better_left 1 0 (un_kind u) p _ l o (omega arith) (un_kind_ne u).0 (un_kind_ne u).1
        (un_kind_hirc u)
op_fold-tokens (binary u a b) p l o w =
    op_fold-append p _ (tokens a) (symbol (bin_kind u) ∷ tokens b) _ refl
    ∙ ap (λ s. op_fold p (tokens a) (op_step (bin_kind u) (p + length (tokens a)) s))
        (op_fold-tokens b _ l o w.3)
    ∙ ap (op_fold p (tokens a)) (
        better_left (rank u) (level b) (bin_kind u) _ _ l o w.1 (bin_kind_ne u).0 (bin_kind_ne u).1
          (bin_kind_hirc u))
    ∙ better-ap (op_fold p (tokens a)) (rank u) _ l o
    ∙ ap₂ (λ x y. if ltb l (rank u) then x else y)
        (op_fold-tokens a p (rank u) (some (p + length (tokens a))) w.2)
        (op_fold-tokens a p l o w.2)
    ∙ better_right (rank u) (level a) _ _ l o w.0
