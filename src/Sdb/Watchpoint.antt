-- ===== src/Sdb/Watchpoint.antt =====
-- The watchpoint pool of core/csrc/monitor/sdb/watchpoint.c. A pointer to a watchpoint is its index
-- in `wp_pool`, and `none` is NULL. The evaluation of expressions is the section's parameter: what
-- expr() of expr.c returns in the machine's present state. Each walk along a list runs on fuel.
pub mod Chain
pub mod Create
pub mod Unlink
pub mod Delete
pub mod Scan
use ic_competition.Base.{
  ℕ, zero, suc, ◌+◌, ◌%◌, ◌^◌, Bool, true, false, Option, none, some, List, [], ◌==◌, ltb,
  if◌then◌else◌, length,
}
use ic_competition.Sdb.Outcome.{Outcome, value, failed, aborted}

abbrev pub nr_wp : ℕ
nr_wp = 32

-- The fields of every `WP` of the pool, and the heads of its two lists.
pub record Pool : Type 0 where
  pub no : ℕ → ℕ
  pub next : ℕ → Option ℕ
  pub e_str : ℕ → List ℕ
  pub pre_result : ℕ → ℕ
  pub head : Option ℕ
  pub free_ : Option ℕ

abbrev pub upd {ℓ} : {A : Type ℓ} → (ℕ → A) → ℕ → A → ℕ → A
upd f i v j = if i == j then v else f j

abbrev pub points_to : Option ℕ → ℕ → Bool
points_to none i = false
points_to (some j) i = j == i

unfoldable pub init_wp_pool : Pool → Pool
init_wp_pool p = record p {
  no = λ i. i;
  next = λ i. if i == 31 then none else some (i + 1);
  head = none;
  free_ = some 0;
}

-- What new_wp returns: the new watchpoint, NULL, or a failed assertion.
pub data Created : Type 0 where
  created : ℕ → Pool → Created
  refused : Created
  stopped : Created

-- The number of a watchpoint that is put in front of the list, as the 32-bit pattern of the `int`.
abbrev pub next_no : Pool → ℕ
next_no p = elim p.head [ none ↦ 1 | some h ↦ (p.no h + 1) % 2 ^ 32 ]

module _ (expr : List ℕ → Outcome) where
  -- The tail of new_wp, with the free node `w` and the value of the expression.
  abbrev pub take_node : Pool → ℕ → List ℕ → ℕ → Pool
  take_node p w e v = record p {
    no = upd p.no w (next_no p);
    next = upd p.next w p.head;
    e_str = upd p.e_str w e;
    pre_result = upd p.pre_result w v;
    head = some w;
    free_ = p.next w;
  }

  unfoldable pub new_wp : Pool → List ℕ → Created
  new_wp p e = elim p.free_ [
    | none ↦ stopped
    | some w ↦ if ltb 31 (length e) then refused else (elim (expr e) [
      | value v ↦ created w (take_node p w e v)
      | failed ↦ refused
      | aborted ↦ stopped
    ])
  ]

  -- The loop of scan_wp_diff from `current` on: the pool and whether a watchpoint was triggered,
  -- or `none` for a failed assertion.
  pub data Scanned : Type 0 where
    scanned : Pool → Bool → Scanned
    asserted out_of_fuel : Scanned

  unfoldable pub scan_loop : ℕ → Pool → Option ℕ → Scanned
  scan_loop zero p current = out_of_fuel
  scan_loop (suc k) p none = scanned p false
  scan_loop (suc k) p (some c) =
      let rest = scan_loop k p (p.next c) in
      elim (expr (p.e_str c)) [
        | value v ↦
            if p.pre_result c == v
            then rest
            else scanned (record p { pre_result = upd p.pre_result c v }) true
        | failed ↦ asserted
        | aborted ↦ asserted
      ]

  unfoldable pub scan_wp_diff : ℕ → Pool → Scanned
  scan_wp_diff fuel p = scan_loop fuel p p.head

-- The `for` loop of free_wp: it goes on to the end of the list behind the unlinked node.
pub unlink_loop : ℕ → (ℕ → Option ℕ) → ℕ → Option ℕ → Option (ℕ → Option ℕ)
unlink_loop zero next wp current = none
unlink_loop (suc k) next wp none = some next
unlink_loop (suc k) next wp (some c) =
    let next' = if points_to (next c) wp then upd next c (next wp) else next in
    unlink_loop k next' wp (next' c)

-- The list part of free_wp, before `wp` is put in front of the free list.
abbrev release : Pool → ℕ → (ℕ → Option ℕ) → Option ℕ → Pool
release p wp next head = record p { next = upd next wp p.free_; head = head; free_ = some wp }

-- `none` means that the fuel ran out.
pub free_wp : ℕ → Pool → ℕ → Option Pool
free_wp fuel p wp =
    if points_to p.head wp
    then some (release p wp p.next (p.next wp))
    else (elim (unlink_loop fuel p.next wp p.head) [
      | none ↦ none
      | some next ↦ some (release p wp next p.head)
    ])

-- The loop of delete_wp from `current` on: the watchpoint with the number, or `none` for none.
unfoldable pub delete_loop : ℕ → Pool → ℕ → Option ℕ → Option (Option ℕ)
delete_loop zero p n current = none
delete_loop (suc k) p n none = some none
delete_loop (suc k) p n (some c) =
    let rest = delete_loop k p n (p.next c) in if p.no c == n then some (some c) else rest

pub delete_wp : ℕ → Pool → ℕ → Option Pool
delete_wp fuel p n = elim (delete_loop fuel p n p.head) [
  | none ↦ none
  | some none ↦ some p
  | some (some c) ↦ free_wp fuel p c
]
