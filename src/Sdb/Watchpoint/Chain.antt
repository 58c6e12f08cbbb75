-- ===== src/Sdb/Watchpoint/Chain.antt =====
-- Lists of watchpoints linked by `next`, and the partition of the pool into two of them.
use ic_competition.Base.{
  ℕ, zero, suc, ◌+◌, ◌<◌, ◌≡◌, ◌≢◌, refl, false, Option, none, some, List, [], ◌∷◌, arith, ◌==◌,
  ltb, leb, ◌&&◌, if◌then◌else◌, length, ap, sym, subst,
}
use ic_competition.Sdb.Watchpoint.{Pool, upd, points_to, nr_wp, init_wp_pool}

abbrev pub count : ℕ → List ℕ → ℕ
count i [] = 0
count i (x ∷ xs) = (if x == i then 1 else 0) + count i xs

-- From a pointer the `next` fields lead through the given nodes to NULL.
pub data Chain (next : ℕ → Option ℕ) : Option ℕ → List ℕ → Type 0 where
  stop : Chain next none []
  node : {i : ℕ} {xs : List ℕ} → Chain next (next i) xs → Chain next (some i) (i ∷ xs)

-- The numbers fall along a list.
abbrev pub Falling : (ℕ → ℕ) → List ℕ → Type 0
Falling number [] = Unit {0}
Falling number (x ∷ []) = Unit {0}
Falling number (x ∷ y ∷ xs) = (number y < number x) × Falling number (y ∷ xs)

-- The pool's list of watchpoints is `used` and its free list `free`; every node of the pool is in
-- exactly one of the two, once; and the numbers of the watchpoints fall along their list.
pub record IsPool (p : Pool) (used free : List ℕ) : Type 0 where
  pub used_chain : Chain p.next p.head used
  pub free_chain : Chain p.next p.free_ free
  pub partition : (i : ℕ) → count i used + count i free ≡ (if ltb i nr_wp then 1 else 0)
  pub size : length used + length free ≡ nr_wp
  pub falling : Falling p.no used

module _ {next : ℕ → Option ℕ} where
  pub Chain-nil : {q : Option ℕ} → Chain next q [] → q ≡ none
  Chain-nil stop = refl

  pub Chain-head : {q : Option ℕ} {i : ℕ} {xs : List ℕ} → Chain next q (i ∷ xs) → q ≡ some i
  Chain-head (node c) = refl

  pub Chain-tail :
      {q : Option ℕ} {i : ℕ} {xs : List ℕ} → Chain next q (i ∷ xs) → Chain next (next i) xs
  Chain-tail (node c) = c

  -- Writes to nodes outside a list leave it as it is.
  pub Chain-frame :
      (next' : ℕ → Option ℕ) {q : Option ℕ} {xs : List ℕ}
      → Chain next q xs
      → ((i : ℕ) → count i xs ≢ 0 → next' i ≡ next i)
      → Chain next' q xs
  Chain-frame next' stop same = stop
  Chain-frame next' (node {i} {xs} c) same = node (
      subst (λ q. Chain next' q xs) (sym (same i (ground arith)))
        (Chain-frame next' c (λ j h. same j (ground arith))))

  pub Chain-upd :
      (w : ℕ) (v : Option ℕ) {q : Option ℕ} {xs : List ℕ}
      → Chain next q xs
      → count w xs ≡ 0
      → Chain (upd next w v) q xs
  Chain-upd w v c out = Chain-frame (upd next w v) c (λ i h. ground arith)

  pub Chain-ne :
      (w : ℕ) {q : Option ℕ} {xs : List ℕ}
      → Chain next q xs
      → count w xs ≡ 0
      → points_to q w ≡ false
  Chain-ne w stop out = refl
  Chain-ne w (node c) out = ground arith

-- The numbers from `i` on.
abbrev pub iota : ℕ → ℕ → List ℕ
iota i zero = []
iota i (suc n) = i ∷ iota (i + 1) n

count-iota : (i n j : ℕ) → count j (iota i n) ≡ (if leb i j && ltb j (i + n) then 1 else 0)
count-iota i zero j = ground arith
count-iota i (suc n) j = ground (arith, count-iota (i + 1) n j)

length-iota : (i n : ℕ) → length (iota i n) ≡ n
length-iota i zero = refl
length-iota i (suc n) = ap suc (length-iota (i + 1) n)

init-Chain :
    (p : Pool) (i n : ℕ) → i + suc n ≡ nr_wp → Chain (init_wp_pool p).next (some i) (iota i (suc n))
unfolding init_wp_pool
init-Chain p i zero e = node (subst (λ q. Chain (init_wp_pool p).next q []) (ground arith) stop)
init-Chain p i (suc n) e = node (
    subst (λ q. Chain (init_wp_pool p).next q (iota (i + 1) (suc n))) (ground arith)
      (init-Chain p (i + 1) n (omega arith)))

partition-iota : (n i : ℕ) → count i [] + count i (iota 0 n) ≡ (if ltb i n then 1 else 0)
partition-iota n i = ground (arith, count-iota 0 n i)

-- After `init_wp_pool` no watchpoint is set and all nodes of the pool are free.
pub init_wp_pool-IsPool : (p : Pool) → IsPool (init_wp_pool p) [] (iota 0 nr_wp)
unfolding init_wp_pool
init_wp_pool-IsPool p = record {
  used_chain = stop;
  free_chain = init-Chain p 0 31 refl;
  partition = partition-iota nr_wp;
  size = refl;
  falling = tt;
}
