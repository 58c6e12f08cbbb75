-- ===== src/Sdb/Watchpoint/Delete.antt =====
-- free_wp and delete_wp: the node is unlinked and freed, and the list keeps its order.
use ic_competition.Base.{
  ℕ, zero, suc, ◌<◌, ◌≡◌, ◌≢◌, ◌⊎◌, inl, inr, refl, false, Option, none, some, List, [], ◌∷◌, arith,
  ◌==◌, length, sym, subst, ◌∙◌, Bool-cases,
}
use ic_competition.Sdb.Watchpoint.{
  Pool, upd, unlink_loop, free_wp, delete_loop, delete_wp, nr_wp, release,
}
use ic_competition.Sdb.Watchpoint.Chain.{
  Chain, stop, node, count, Falling, IsPool, Chain-head, Chain-tail, Chain-upd, Chain-frame,
}
use ic_competition.Sdb.Watchpoint.Unlink.{
  erase, count-erase, length-erase, Falling-erase, Falling-tail, unlink_loop-Unlinked,
}

-- What freeing a watchpoint makes of the pool.
pub record Freed (p : Pool) (used free : List ℕ) (w : ℕ) (p' : Pool) : Type 0 where
  pub pool : IsPool p' (erase w used) (w ∷ free)
  pub numbers : p'.no ≡ p.no
  pub strings : p'.e_str ≡ p.e_str
  pub results : p'.pre_result ≡ p.pre_result

Falling-erase_all :
    (number : ℕ → ℕ) (w : ℕ) (xs : List ℕ) → Falling number xs → Falling number (erase w xs)
Falling-erase_all number w [] f = tt
Falling-erase_all number w (x ∷ xs) f = elim (Bool-cases (x == w)) [
  | inl same ↦ rw same (Falling-tail number x xs f)
  | inr other ↦ rw other (Falling-erase number w x xs f)
]

-- The list without `w`, linked by `links` and headed by `head`, makes a pool again.
release-Freed :
    (p : Pool) (used free : List ℕ) (w : ℕ) (links : ℕ → Option ℕ) (head : Option ℕ)
    → IsPool p used free
    → count w used ≢ 0
    → Chain links head (erase w used)
    → ((j : ℕ) → count j used ≡ 0 → links j ≡ p.next j)
    → Freed p used free w (release p w links head)
release-Freed p used free w links head i mem chain others = record {
  pool = record {
    used_chain =
        Chain-upd w p.free_ chain (ground (arith, i.partition w, count-erase w w used mem));
    free_chain = node (
        subst (λ q. Chain (upd links w p.free_) q free) (ground arith)
          (Chain-upd w p.free_
            (Chain-frame links i.free_chain (λ j h. others j (ground (arith, i.partition j))))
            (ground (arith, i.partition w))));
    partition = λ j. omega (arith, i.partition j, count-erase j w used mem);
    size = omega (arith, i.size, length-erase w used mem);
    falling = Falling-erase_all p.no w used i.falling;
  };
  numbers = refl;
  strings = refl;
  results = refl;
}

free_wp_behind :
    (fuel : ℕ) (p : Pool) (w c : ℕ) (links : ℕ → Option ℕ)
    → p.head ≡ some c
    → (c == w) ≡ false
    → unlink_loop fuel p.next w (some c) ≡ some links
    → free_wp fuel p w ≡ some (release p w links p.head)
unfolding free_wp
free_wp_behind fuel p w c links e miss run = ground arith

-- `free_wp` of a watchpoint that is set takes it out of the list, keeps the others in their order
-- with all that they hold, and puts its node in front of the free list.
pub free_wp-Freed :
    (fuel : ℕ) (p : Pool) (used free : List ℕ) (w : ℕ)
    → IsPool p used free
    → count w used ≢ 0
    → nr_wp < fuel
    → (p' : Pool) × (free_wp fuel p w ≡ some p') × Freed p used free w p'
unfolding free_wp
free_wp-Freed fuel p [] free w i mem enough = absurd (mem refl)
free_wp-Freed fuel p (c ∷ xs) free w i mem enough = elim (Bool-cases (c == w)) [
  | inl hit ↦ (
    release p w p.next (p.next w),
    rw (Chain-head i.used_chain, hit) refl,
    release-Freed p (c ∷ xs) free w p.next (p.next w) i mem
        (rw hit (subst (λ z. Chain p.next (p.next z) xs) (ground arith) (Chain-tail i.used_chain)))
        (λ j h. refl),
  )
  | inr miss ↦
      let u =
        unlink_loop-Unlinked fuel w c p.next xs (Chain-tail i.used_chain) (ground arith)
          (λ j. ground (arith, i.partition j)) (omega (arith, i.size)) in
      (
        release p w u.links p.head,
        free_wp_behind fuel p w c u.links (Chain-head i.used_chain) miss u.returns,
        release-Freed p (c ∷ xs) free w u.links p.head i mem
            (subst (λ q. Chain u.links q (erase w (c ∷ xs))) (sym (Chain-head i.used_chain))
              (rw miss (node u.chain)))
            u.others,
      )
]

Falling-lt :
    (number : ℕ → ℕ) (x i : ℕ) (xs : List ℕ)
    → Falling number (x ∷ xs)
    → count i xs ≢ 0
    → number i < number x
Falling-lt number x i [] f mem = absurd (mem refl)
Falling-lt number x i (y ∷ ys) f mem = elim (Bool-cases (y == i)) [
  | inl same ↦ ground (arith)
  | inr other ↦
      let r : number i < number y = Falling-lt number y i ys f.1 (ground arith) in omega arith
]

-- Two watchpoints of a list with falling numbers do not share a number.
Falling-injective :
    (number : ℕ → ℕ) (i j : ℕ) (xs : List ℕ)
    → Falling number xs
    → count i xs ≢ 0
    → count j xs ≢ 0
    → number i ≡ number j
    → i ≡ j
Falling-injective number i j [] f mi mj e = absurd (mi refl)
Falling-injective number i j (x ∷ xs) f mi mj e = elim (Bool-cases (x == i)) [
  | inl same ↦ elim (Bool-cases (x == j)) [
    | inl same' ↦ ground arith
    | inr other' ↦
        let h : number j < number x = Falling-lt number x j xs f (ground arith) in ground arith
  ]
  | inr other ↦ elim (Bool-cases (x == j)) [
    | inl same' ↦
        let h : number i < number x = Falling-lt number x i xs f (ground arith) in ground arith
    | inr other' ↦
        Falling-injective number i j xs (Falling-tail number x xs f) (ground arith) (ground arith) e
  ]
]

-- The loop finds a watchpoint with the number, or there is none.
delete_loop-cases :
    (k : ℕ) (p : Pool) (n : ℕ) {q : Option ℕ} {xs : List ℕ}
    → Chain p.next q xs
    → length xs < k
    → ((w : ℕ) × (delete_loop k p n q ≡ some (some w)) × (count w xs ≢ 0) × (p.no w ≡ n))
      ⊎ ((delete_loop k p n q ≡ some none) × ((i : ℕ) → count i xs ≢ 0 → p.no i ≢ n))
unfolding delete_loop
delete_loop-cases zero p n c fuel = absurd (omega arith)
delete_loop-cases (suc k) p n stop fuel = inr (refl, λ i h. absurd (h refl))
delete_loop-cases (suc k) p n (node {i} {xs} c) fuel = elim (Bool-cases (p.no i == n)) [
  | inl hit ↦ inl (i, rw hit, ground arith, ground arith)
  | inr miss ↦ elim (delete_loop-cases k p n c (omega arith)) [
    | inl (w, run, mem, e) ↦ inl (w, rw miss run, ground arith, e)
    | inr (run, absent) ↦ inr (
      rw miss run,
      λ j mem. elim (Bool-cases (i == j)) [
        | inl same ↦ ground arith
        | inr other ↦ absent j (ground arith)
      ],
    )
  ]
]

-- `delete_wp` of a number either takes out the one watchpoint with that number, leaving all others
-- in order, or there is no such watchpoint and nothing changes.
pub delete_wp-Freed :
    (fuel : ℕ) (p : Pool) (used free : List ℕ) (n : ℕ)
    → IsPool p used free
    → nr_wp < fuel
    → ((w : ℕ) × (p' : Pool) × (delete_wp fuel p n ≡ some p')
        × Freed p used free w p'
        × (p.no w ≡ n)
        × ((i : ℕ) → count i used ≢ 0 → p.no i ≡ n → i ≡ w))
      ⊎ ((delete_wp fuel p n ≡ some p) × ((i : ℕ) → count i used ≢ 0 → p.no i ≢ n))
unfolding delete_wp
delete_wp-Freed fuel p used free n i enough =
    elim (delete_loop-cases fuel p n i.used_chain (omega (arith, i.size))) [
      | inl (w, run, mem, e) ↦
          let (p', freed, f) = free_wp-Freed fuel p used free w i mem enough in
          inl (
            w,
            p',
            rw (run, delete_wp) freed,
            f,
            e,
            λ j mj ej. Falling-injective p.no j w used i.falling mj mem (ej ∙ sym e),
          )
      | inr (run, absent) ↦ inr (rw (run, delete_wp), absent)
    ]
