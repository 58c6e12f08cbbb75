-- ===== src/Tests/Debugger.antt =====
-- Runs of the debugger's expressions and watchpoints on concrete inputs.
use ic_competition.Base.{
  ℕ, ◌+◌, ◌-◌, ◌^◌, ◌<◌, ◌≡◌, ◌≢◌, ◌∙◌, ap, ◌⊎◌, refl, true, false, none, some, List, [], ◌∷◌,
  arith, ◌==◌, if◌then◌else◌, length, get_or, sym, subst,
}
use mathlib.Core.Option.{some-injective, none-ne-some}
use ic_competition.Sdb.Outcome.{Outcome, value}
use ic_competition.Sdb.Expr.Token.{Tokens}
use ic_competition.Sdb.Expr.Eval.{Machine, eval}
use ic_competition.Sdb.Expr.Grammar.{
  Ast, number, paren, unary, binary, negate, add, mul, tokens, denote, symbol,
}
use ic_competition.Sdb.Expr.Correct.{eval-denote}
use ic_competition.Sdb.Expr.Correct.Steps.{Agrees}
use ic_competition.Sdb.Expr.Correct.Ranges.{Range}
use ic_competition.Sdb.Watchpoint.{
  Pool, init_wp_pool, next_no, created, new_wp, delete_wp, scanned, scan_wp_diff,
}
use ic_competition.Sdb.Watchpoint.Chain.{IsPool, Chain-head, init_wp_pool-IsPool, iota, count}
use ic_competition.Sdb.Watchpoint.Create.{HasNumber, Added, new_wp-Added}
use ic_competition.Sdb.Watchpoint.Delete.{Freed, delete_wp-Freed}
use ic_competition.Sdb.Watchpoint.Scan.{
  Evaluates, Unchanged, triggered, FirstChanged, scan_wp_diff-cases,
}

-- One-digit numerals, and a memory that cannot be read at 1.
abbrev machine : Machine
machine = record {
  atoi = λ s. get_or s 0 b'0' - b'0';
  pmem_read = λ a. if a == 1 then none else some 7;
}

-- -(2+3)*4
abbrev product : Ast
product =
    binary mul (unary negate (paren (binary add (number (b'2' ∷ [])) (number (b'3' ∷ [])))))
      (number (b'4' ∷ []))

abbrev array : Ast → Tokens
array a i = get_or (tokens a) i (symbol 0)

product-Range : Range (array product) 0 8 product
unfolding tokens
product-Range = record {
  holds = (
    refl,
    λ _. refl,
    (
      refl,
      λ _. refl,
      (
        refl,
        λ _. refl,
        (
          refl,
          λ _. refl,
          (refl, λ _. refl, (refl, λ _. refl, (refl, λ _. refl, (refl, λ _. refl, tt)))),
        ),
      ),
    ),
  );
  ends = refl;
  wf = (omega arith, omega arith, (refl, (omega arith, omega arith, tt, tt)), tt);
}

eval-denote_example : Agrees (eval machine 8 (array product) 0 8 true) (denote machine product)
eval-denote_example =
    eval-denote machine 8 (array product) 0 8 product product-Range (unfold tokens in omega arith)

abbrev pool_0 : Pool
pool_0 = init_wp_pool (record {
  no = λ i. 9;
  next = λ i. none;
  e_str = λ i. [];
  pre_result = λ i. 0;
  head = some 3;
  free_ = none;
})

pool_0-IsPool : IsPool pool_0 [] (0 ∷ iota 1 31)
pool_0-IsPool = init_wp_pool-IsPool _

-- Every expression has its length as value.
abbrev measure : List ℕ → Outcome
measure e = value (length e)

pool_0-HasNumber : HasNumber pool_0
unfolding init_wp_pool
pool_0-HasNumber h e = absurd (none-ne-some h e)

pool_0-next : next_no pool_0 ≡ 1
unfolding init_wp_pool
pool_0-next = refl

new_wp-Added_example :
    (p' : Pool) × (new_wp measure pool_0 (b'x' ∷ []) ≡ created 0 p')
    × Added measure pool_0 [] (iota 1 31) 0 (b'x' ∷ []) 1 p'
new_wp-Added_example =
    new_wp-Added measure pool_0 [] (iota 1 31) 0 (b'x' ∷ []) 1 pool_0-IsPool pool_0-HasNumber
      (omega arith) refl

-- Two watchpoints set, with 2 and 1 for values.
abbrev pool_1 : Pool
pool_1 =
    (new_wp-Added measure pool_0 [] (iota 1 31) 0 (b'x' ∷ []) 1 pool_0-IsPool pool_0-HasNumber
      (omega arith) refl).0

pool_1-Added : Added measure pool_0 [] (iota 1 31) 0 (b'x' ∷ []) 1 pool_1
pool_1-Added =
    (new_wp-Added measure pool_0 [] (iota 1 31) 0 (b'x' ∷ []) 1 pool_0-IsPool pool_0-HasNumber
      (omega arith) refl).2

pool_1-HasNumber : HasNumber pool_1
pool_1-HasNumber h e =
    let head = Chain-head pool_1-Added.pool.used_chain in
    let same = some-injective 0 h (sym head ∙ e) in
    let number = pool_1-Added.number ∙ pool_0-next in
    subst (λ k. pool_1.no k + 1 < 2 ^ 31) same (omega arith)

abbrev pool_2 : Pool
pool_2 =
    (new_wp-Added measure pool_1 (0 ∷ []) (iota 2 30) 1 (b'x' ∷ b'y' ∷ []) 2 pool_1-Added.pool
      pool_1-HasNumber (omega arith) refl).0

pool_2-Added : Added measure pool_1 (0 ∷ []) (iota 2 30) 1 (b'x' ∷ b'y' ∷ []) 2 pool_2
pool_2-Added =
    (new_wp-Added measure pool_1 (0 ∷ []) (iota 2 30) 1 (b'x' ∷ b'y' ∷ []) 2 pool_1-Added.pool
      pool_1-HasNumber (omega arith) refl).2

delete_wp-Freed_example :
    ((w : ℕ) × (p' : Pool) × (delete_wp 33 pool_2 1 ≡ some p')
      × Freed pool_2 (1 ∷ 0 ∷ []) (iota 2 30) w p'
      × (pool_2.no w ≡ 1)
      × ((i : ℕ) → count i (1 ∷ 0 ∷ []) ≢ 0 → pool_2.no i ≡ 1 → i ≡ w))
    ⊎ ((delete_wp 33 pool_2 1 ≡ some pool_2)
        × ((i : ℕ) → count i (1 ∷ 0 ∷ []) ≢ 0 → pool_2.no i ≢ 1))
delete_wp-Freed_example =
    delete_wp-Freed 33 pool_2 (1 ∷ 0 ∷ []) (iota 2 30) 1 pool_2-Added.pool (omega arith)

-- The present values: 1 for the first node and 7 for the second.
abbrev now : ℕ → ℕ
now i = if i == 0 then 1 else 7

abbrev present : List ℕ → Outcome
present e = value (if length e == 1 then 1 else 7)

present_values : Evaluates present pool_2 now (1 ∷ 0 ∷ [])
present_values = (
  ap present pool_2-Added.string,
  (ap present ((pool_2-Added.others 0 (omega arith)).1 ∙ pool_1-Added.string), tt),
)

scan_wp_diff-cases_example :
    ((scan_wp_diff present 33 pool_2 ≡ scanned pool_2 false)
      × Unchanged present pool_2 now (1 ∷ 0 ∷ []))
    ⊎ ((w : ℕ) × (scan_wp_diff present 33 pool_2
          ≡ scanned (triggered present pool_2 w (now w)) true)
        × FirstChanged present pool_2 now (1 ∷ 0 ∷ []) w
        × IsPool (triggered present pool_2 w (now w)) (1 ∷ 0 ∷ []) (iota 2 30))
scan_wp_diff-cases_example =
    scan_wp_diff-cases present 33 pool_2 (1 ∷ 0 ∷ []) (iota 2 30) now pool_2-Added.pool
      present_values (omega arith)
