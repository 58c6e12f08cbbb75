-- ===== src/Sdb/Expr/Eval.antt =====
-- check_parentheses(), find_main_op() and eval() of expr.c. The range from `p` to `q` is given as `p`
-- and `e`, one more than `q`, so that `q` may be -1. `*success` is passed in and out.
use ic_competition.Base.{
  ℕ, zero, suc, ◌+◌, ◌-◌, ◌*◌, ◌/◌, ◌%◌, ◌^◌, Bool, true, false, not, ◌&&◌, ◌||◌, Option, none,
  some, List, ◌==◌, ltb, leb, if◌then◌else◌, ℤ, pos, negsuc, neg, signed32, word32,
}
use ic_competition.Sdb.Expr.Token.{Tokens, kind_at, num, eq, neq, and, deref, inv, op_hirc}

-- What eval calls: `atoi` of the host, as a 32-bit pattern, and pmem_read(), which may panic.
pub record Machine : Type 0 where
  pub atoi : List ℕ → ℕ
  pub pmem_read : ℕ → Option ℕ

abbrev pub succ : ℤ → ℤ
succ (pos n) = pos (suc n)
succ (negsuc zero) = pos 0
succ (negsuc (suc n)) = negsuc n

abbrev pub pred : ℤ → ℤ
pred (pos zero) = negsuc 0
pred (pos (suc n)) = pos n
pred (negsuc n) = negsuc (suc n)

-- The variables `cnt`, `flag` and `*success` of check_parentheses.
pub record Parens : Type 0 where
  pub cnt : ℤ
  pub flag : Bool
  pub success : Bool

abbrev pub count_paren : ℕ → ℤ → ℤ
count_paren k cnt = if k == b'(' then succ cnt else if k == b')' then pred cnt else cnt

-- The `if (cnt == -1) … else if (cnt < -1) …`, on the count after the token.
abbrev pub note_cnt : ℤ → Bool → Bool → Parens
note_cnt (pos n) flag success = record { cnt = pos n; flag = flag; success = success }
note_cnt (negsuc zero) flag success = record { cnt = negsuc zero; flag = true; success = success }
note_cnt (negsuc (suc n)) flag success = record {
  cnt = negsuc (suc n);
  flag = flag;
  success = false;
}

abbrev pub paren_step : ℕ → Parens → Parens
paren_step k s = note_cnt (count_paren k s.cnt) s.flag s.success

-- `for(int i = p+1; i < q; i++)`, with the rounds left first
unfoldable pub paren_loop : ℕ → ℕ → Tokens → Parens → Parens
paren_loop zero i t s = s
paren_loop (suc n) i t s = paren_loop n (i + 1) t (paren_step (kind_at t i) s)

abbrev pub is_zero : ℤ → Bool
is_zero (pos zero) = true
is_zero (pos (suc n)) = false
is_zero (negsuc n) = false

-- The result and `*success`, for `e` at least `p + 2`.
unfoldable pub check_parentheses : Tokens → ℕ → ℕ → Bool → Bool × Bool
check_parentheses t p e success =
    if not (kind_at t p == b'(') || not (kind_at t (e - 1) == b')')
    then (false, success)
    else (let s =
          paren_loop (e - p - 2) (p + 1) t
            (record { cnt = pos 0; flag = false; success = success }) in
        (not s.flag, s.success && is_zero s.cnt))

-- The variables `musk`, `op_hirc_level` and `main_op` of find_main_op; `none` is -1.
pub record Search : Type 0 where
  pub musk : ℤ
  pub op_hirc_level : ℕ
  pub main_op : Option ℕ

abbrev pub op_step : ℕ → ℕ → Search → Search
op_step k i s =
    if k == b')'
    then record s { musk = succ s.musk }
    else if k == b'('
    then record s { musk = pred s.musk }
    else if ltb s.op_hirc_level (op_hirc k) && is_zero s.musk
    then record s { op_hirc_level = op_hirc k; main_op = some i }
    else s

-- `for(int i = q; i >= p; i--)`: the `n` tokens from `p` on, the last one first
unfoldable pub op_loop : ℕ → ℕ → Tokens → Search → Search
op_loop zero p t s = s
op_loop (suc n) p t s = op_loop n p t (op_step (kind_at t (p + n)) (p + n) s)

unfoldable pub find_main_op : Tokens → ℕ → ℕ → Option ℕ
find_main_op t p e =
    (op_loop (e - p) p t (record { musk = pos 0; op_hirc_level = 0; main_op = none })).main_op

-- The returned value with `*success`, a panic or a trap, or an exhausted fuel.
pub data Result : Type 0 where
  ret : ℕ → Bool → Result
  panicked out_of_fuel : Result

abbrev pub then_with : Result → (ℕ → Bool → Result) → Result
then_with (ret v ok) f = f v ok
then_with panicked f = panicked
then_with out_of_fuel f = out_of_fuel

-- C's division of two `int`, rounded towards zero.
abbrev pub div_ℤ : ℤ → ℤ → ℤ
div_ℤ (pos a) (pos b) = pos (a / b)
div_ℤ (pos a) (negsuc b) = neg (pos (a / suc b))
div_ℤ (negsuc a) (pos b) = neg (pos (suc a / b))
div_ℤ (negsuc a) (negsuc b) = pos (suc a / suc b)

abbrev pub truth : Bool → ℕ
truth b = if b then 1 else 0

-- `(int)val1 / (int)val2`; the least `int` divided by -1 traps on the host.
abbrev pub divide : ℕ → ℕ → Bool → Result
divide a b ok =
    if b == 0
    then ret 1 false
    else if a == 2 ^ 31 && b == 2 ^ 32 - 1
    then panicked
    else ret (word32 (div_ℤ (signed32 a) (signed32 b))) ok

-- The `switch` of eval; its default case fails an assertion.
unfoldable pub apply : Machine → ℕ → ℕ → ℕ → Bool → Result
apply machine k val1 val2 ok =
    if k == b'+'
    then ret ((val1 + val2) % 2 ^ 32) ok
    else if k == b'-'
    then ret ((val1 + 2 ^ 32 - val2) % 2 ^ 32) ok
    else if k == b'*'
    then ret ((val1 * val2) % 2 ^ 32) ok
    else if k == b'/'
    then divide val1 val2 ok
    else if k == eq
    then ret (truth (val1 == val2)) ok
    else if k == neq
    then ret (truth (not (val1 == val2))) ok
    else if k == and
    then ret (truth (not (val1 == 0) && not (val2 == 0))) ok
    else if k == inv
    then ret ((2 ^ 32 - val2) % 2 ^ 32) ok
    else if k == deref
    then (elim (machine.pmem_read val2) [ none ↦ panicked | some v ↦ ret v ok ])
    else panicked

-- The last branch of eval, at the main operator; the calls of eval are handed in.
abbrev pub eval_op :
    Machine → Tokens → ℕ → Option ℕ → Bool → (ℕ → Bool → Result) → (ℕ → Bool → Result) → Result
eval_op machine t p none ok left right = ret 1 false
eval_op machine t p (some op) ok left right =
    if not ok
    then ret 1 false
    else then_with (if op == p then ret 0 ok else left op ok) (λ val1 ok1.
      then_with (right (op + 1) ok1) (λ val2 ok2. apply machine (kind_at t op) val1 val2 ok2))

unfoldable pub eval : Machine → ℕ → Tokens → ℕ → ℕ → Bool → Result
eval machine zero t p e ok = out_of_fuel
eval machine (suc k) t p e ok =
    let inside = eval machine k t (p + 1) (e - 1) in
    let parens = check_parentheses t p e ok in
    let outside =
      eval_op machine t p (find_main_op t p e) parens.1 (λ op b. eval machine k t p op b)
        (λ op b. eval machine k t op e b) in
    if leb e p
    then panicked
    else if e == p + 1
    then ret (machine.atoi (t p).str) (ok && kind_at t p == num)
    else if parens.0
    then inside parens.1
    else outside
