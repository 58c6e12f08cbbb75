-- ===== src/Sdb/Expr/Correct/Steps.antt =====
-- One call of eval on each form of range, and the operators.
use ic_competition.Base.{
  ℕ, suc, ◌+◌, ◌-◌, ◌<◌, ◌≡◌, refl, Bool, true, false, ◌&&◌, Option, none, some, arith, ◌==◌, leb,
  ◌^◌, Bool-cases, inl, inr,
}
use ic_competition.Sdb.Outcome.{Outcome, value, failed, aborted}
use ic_competition.Sdb.Expr.Token.{Tokens, kind_at, num}
use ic_competition.Sdb.Expr.Eval.{
  Machine, Result, ret, panicked, out_of_fuel, eval, eval_op, check_parentheses, find_main_op,
  apply, then_with,
}
use ic_competition.Sdb.Expr.Grammar.{
  BinOp, add, sub, mul, div, eql, neq_, both, UnOp, negate, load, bin_kind, un_kind, bin_value,
  un_value, both_values, one_value,
}

-- A result that gives no value: `*success` is false, or the program has ended.
abbrev pub Refused : Result → Type 0
Refused (ret v ok) = ok ≡ false
Refused panicked = Unit {0}
Refused out_of_fuel = ⊥

-- The result that an outcome calls for.
abbrev pub Agrees : Result → Outcome → Type 0
Agrees r (value v) = r ≡ ret v true
Agrees r failed = Refused r
Agrees r aborted = Refused r

module _ (machine : Machine) (k : ℕ) (t : Tokens) (p e : ℕ) (ok : Bool) where
  pub eval_single :
      e ≡ p + 1
      → eval machine (suc k) t p e ok ≡ ret (machine.atoi (t p).str) (ok && kind_at t p == num)
  unfolding eval
  eval_single h =
      let below : leb e p ≡ false = ground arith in
      let one : (e == p + 1) ≡ true = ground arith in rw (below, one)

  pub eval_inside :
      (ok' : Bool)
      → p + 1 < e
      → check_parentheses t p e ok ≡ (true, ok')
      → eval machine (suc k) t p e ok ≡ eval machine k t (p + 1) (e - 1) ok'
  unfolding eval
  eval_inside ok' h c =
      let below : leb e p ≡ false = ground arith in
      let more : (e == p + 1) ≡ false = ground arith in rw (below, more, c)

  pub eval_outside :
      (ok' : Bool) (op : ℕ)
      → p + 1 < e
      → check_parentheses t p e ok ≡ (false, ok')
      → find_main_op t p e ≡ some op
      → eval machine (suc k) t p e ok
        ≡ eval_op machine t p
            (some op)
            ok'
            (λ i b. eval machine k t p i b)
            (λ i b. eval machine k t i e b)
  unfolding eval
  eval_outside ok' op h c f =
      let below : leb e p ≡ false = ground arith in
      let more : (e == p + 1) ≡ false = ground arith in rw (below, more, c, f)

pub apply-binary :
    (machine : Machine) (o : BinOp) (a b : ℕ)
    → Agrees (apply machine (bin_kind o) a b true) (bin_value o a b)
unfolding apply
apply-binary machine add a b = refl
apply-binary machine sub a b = refl
apply-binary machine mul a b = refl
apply-binary machine div a b = elim (Bool-cases (b == 0)) [
  | inl zero ↦ rw zero refl
  | inr nonzero ↦ elim (Bool-cases (a == 2 ^ 31 && b == 2 ^ 32 - 1)) [
    | inl trap ↦ rw (nonzero, trap) tt
    | inr fine ↦ rw (nonzero, fine) refl
  ]
]
apply-binary machine eql a b = refl
apply-binary machine neq_ a b = refl
apply-binary machine both a b = refl

pub apply-unary :
    (machine : Machine) (o : UnOp) (a b : ℕ)
    → Agrees (apply machine (un_kind o) a b true) (un_value machine o b)
unfolding apply
apply-unary machine negate a b = refl
apply-unary machine load a b = load_lem (machine.pmem_read b)
  where
    load_lem :
        (r : Option ℕ)
        → Agrees
            (elim r [ none ↦ panicked | some v ↦ ret v true ])
            (elim r [ none ↦ aborted | some v ↦ value v ])
    load_lem none = tt
    load_lem (some v) = refl

-- With `*success` false an operator gives no value.
pub apply-binary_false :
    (machine : Machine) (o : BinOp) (a b : ℕ) → Refused (apply machine (bin_kind o) a b false)
unfolding apply
apply-binary_false machine add a b = refl
apply-binary_false machine sub a b = refl
apply-binary_false machine mul a b = refl
apply-binary_false machine div a b = elim (Bool-cases (b == 0)) [
  | inl zero ↦ rw zero refl
  | inr nonzero ↦ elim (Bool-cases (a == 2 ^ 31 && b == 2 ^ 32 - 1)) [
    | inl trap ↦ rw (nonzero, trap) tt
    | inr fine ↦ rw (nonzero, fine) refl
  ]
]
apply-binary_false machine eql a b = refl
apply-binary_false machine neq_ a b = refl
apply-binary_false machine both a b = refl

pub apply-unary_false :
    (machine : Machine) (o : UnOp) (a b : ℕ) → Refused (apply machine (un_kind o) a b false)
unfolding apply
apply-unary_false machine negate a b = refl
apply-unary_false machine load a b = load_lem (machine.pmem_read b)
  where
    load_lem : (r : Option ℕ) → Refused (elim r [ none ↦ panicked | some v ↦ ret v false ])
    load_lem none = tt
    load_lem (some v) = refl

Refused-then :
    (r : Result) (f : ℕ → Bool → Result)
    → Refused r
    → ((v : ℕ) → Refused (f v false))
    → Refused (then_with r f)
Refused-then (ret v ok) f h g = rw h (g v)
Refused-then panicked f h g = tt
Refused-then out_of_fuel f h g = h

-- An operator's operands, evaluated in order; `right` is the second one's evaluation, and gives no
-- value once `*success` is false.
module _ (machine : Machine) (right : Bool → Result) where
  pub Agrees-binary :
      (o : BinOp) (left : Result) (x y : Outcome)
      → Agrees left x
      → Agrees (right true) y
      → (v : ℕ) × (right false ≡ ret v false)
      → Agrees
          (then_with left (λ val1 ok1.
            then_with (right ok1) (λ val2 ok2. apply machine (bin_kind o) val1 val2 ok2)))
          (both_values x y (bin_value o))
  Agrees-binary o left (value a) (value b) hl hr hf = rw (hl, hr) (apply-binary machine o a b)
  Agrees-binary o left (value a) failed hl hr hf =
      rw hl (Refused-then (right true) _ hr (apply-binary_false machine o a))
  Agrees-binary o left (value a) aborted hl hr hf =
      rw hl (Refused-then (right true) _ hr (apply-binary_false machine o a))
  Agrees-binary o left failed y hl hr (v, hf) =
      Refused-then left _ hl (λ a. rw hf (apply-binary_false machine o a v))
  Agrees-binary o left aborted y hl hr (v, hf) =
      Refused-then left _ hl (λ a. rw hf (apply-binary_false machine o a v))

  pub Agrees-unary :
      (o : UnOp) (y : Outcome)
      → Agrees (right true) y
      → Agrees
          (then_with (right true) (λ val2 ok2. apply machine (un_kind o) 0 val2 ok2))
          (one_value y (un_value machine o))
  Agrees-unary o (value b) hr = rw hr (apply-unary machine o 0 b)
  Agrees-unary o failed hr = Refused-then (right true) _ hr (apply-unary_false machine o 0)
  Agrees-unary o aborted hr = Refused-then (right true) _ hr (apply-unary_false machine o 0)
