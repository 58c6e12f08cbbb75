-- ===== src/Sdb/Watchpoint/Create.antt =====
-- new_wp: every branch, and the invariant.
use ic_competition.Base.{
  ℕ, ◌+◌, ◌^◌, ◌<◌, ◌≡◌, ◌≢◌, refl, false, inl, inr, Option, some, Option-cases, List, [], ◌∷◌,
  arith, ltb, length, subst,
}
use ic_competition.Sdb.Outcome.{Outcome, value}
use ic_competition.Sdb.Watchpoint.{Pool, upd, new_wp, next_no, created, stopped, nr_wp, take_node}
use ic_competition.Sdb.Watchpoint.Chain.{
  Chain, stop, node, count, Falling, IsPool, Chain-head, Chain-tail, Chain-upd, Chain-nil,
}

Falling-upd :
    (number : ℕ → ℕ) (w n : ℕ) (xs : List ℕ)
    → count w xs ≡ 0
    → Falling number xs
    → Falling (upd number w n) xs
Falling-upd number w n [] out f = tt
Falling-upd number w n (x ∷ []) out f = tt
Falling-upd number w n (x ∷ y ∷ xs) out f =
    (ground arith, Falling-upd number w n (y ∷ xs) (ground arith) f.1)

-- The number behind that of the head of the list is an `int`.
abbrev pub HasNumber : Pool → Type 0
HasNumber p = (h : ℕ) → p.head ≡ some h → p.no h + 1 < 2 ^ 31

-- No number of the pool's 32 nodes overflows an `int` when it grows by `n`.
abbrev pub HasRoom : ℕ → Pool → Type 0
HasRoom n p = (i : ℕ) → i < 32 → p.no i + n < 2 ^ 31

next_no-int : (p : Pool) → HasNumber p → next_no p < 2 ^ 31
next_no-int p room = elim (Option-cases p.head) [
  | inl empty ↦ rw empty (omega arith)
  | inr got ↦ let small = room got.0 got.1 in rw got.1 (omega arith)
]

-- The new watchpoint's number is above that of the head of the list.
Falling-cons :
    (p : Pool) (w : ℕ) {q : Option ℕ} {used : List ℕ}
    → Chain p.next q used
    → p.head ≡ q
    → count w used ≡ 0
    → Falling p.no used
    → HasNumber p
    → Falling (upd p.no w (next_no p)) (w ∷ used)
Falling-cons p w stop e out f room = tt
Falling-cons p w (node {i} {xs} c) e out f room =
    let small = room i e in (rw e (ground arith), Falling-upd p.no w _ (i ∷ xs) out f)

-- The first free node is in neither list but there.
apart :
    (p : Pool) (used free : List ℕ) (w : ℕ)
    → IsPool p used (w ∷ free)
    → (count w used ≡ 0) × (count w free ≡ 0)
apart p used free w i = ground (arith, i.partition w)

module _ (expr : List ℕ → Outcome) where
  -- What setting a watchpoint on `e` with the value `v` makes of the pool.
  pub record Added (p : Pool) (used free : List ℕ) (w : ℕ) (e : List ℕ) (v : ℕ) (p' : Pool)
      : Type 0 where
    pub pool : IsPool p' (w ∷ used) free
    pub string : p'.e_str w ≡ e
    pub result : p'.pre_result w ≡ v
    pub number : p'.no w ≡ next_no p
    pub number_int : p'.no w < 2 ^ 31
    pub others :
        (i : ℕ)
        → i ≢ w
        → (p'.no i ≡ p.no i) × (p'.e_str i ≡ p.e_str i) × (p'.pre_result i ≡ p.pre_result i)

  take_node-Added :
      (p : Pool) (used free : List ℕ) (w : ℕ) (e : List ℕ) (v : ℕ)
      → IsPool p used (w ∷ free)
      → HasNumber p
      → Added p used free w e v (take_node expr p w e v)
  take_node-Added p used free w e v i room =
      let (out, out') = apart p used free w i in
      record {
        pool = record {
          used_chain = node (
              subst (λ q. Chain (upd p.next w p.head) q used) (ground arith)
                (Chain-upd w p.head i.used_chain out));
          free_chain = Chain-upd w p.head (Chain-tail i.free_chain) out';
          partition = λ j. omega (arith, i.partition j);
          size = omega (arith, i.size);
          falling = Falling-cons p w i.used_chain refl out i.falling room;
        };
        string = ground arith;
        result = ground arith;
        number = ground arith;
        number_int = let small = next_no-int p room in ground arith;
        others = λ j ne. ground arith;
      }

  -- With a free node, and where the number behind that of the head is an `int`, `new_wp` on an
  -- expression of at most 31 characters that evaluates sets a watchpoint: the node moves from the
  -- free list to the front of the list, holds the expression, its value and a number above those of
  -- all others that is an `int`, and no other watchpoint changes.
  pub new_wp-Added :
      (p : Pool) (used free : List ℕ) (w : ℕ) (e : List ℕ) (v : ℕ)
      → IsPool p used (w ∷ free)
      → HasNumber p
      → length e < 32
      → expr e ≡ value v
      → (p' : Pool) × (new_wp expr p e ≡ created w p') × Added p used free w e v p'
  unfolding new_wp
  new_wp-Added p used free w e v i room short evaluates =
      let fits : ltb 31 (length e) ≡ false = ground arith in
      (
        take_node expr p w e v,
        rw (Chain-head i.free_chain) (rw fits (rw evaluates refl)),
        take_node-Added p used free w e v i room,
      )

  -- With 32 watchpoints set, `new_wp` fails its assertion whatever the expression.
  pub new_wp_full :
      (p : Pool) (used free : List ℕ) (e : List ℕ)
      → IsPool p used free
      → length used ≡ nr_wp
      → new_wp expr p e ≡ stopped
  unfolding new_wp
  new_wp_full p used [] e i full = rw (Chain-nil i.free_chain)
  new_wp_full p used (w ∷ free) e i full = absurd (omega (arith, i.size))
