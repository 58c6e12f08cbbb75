-- ===== src/Programs/Bubble.antt =====
-- bubble_sort of bubble-sort.c, with `n` for the length N. A loop recurs on the rounds left.
use ic_competition.Base.{
  ℕ, zero, suc, ◌+◌, ◌-◌, ◌<◌, ◌≤◌, ◌≡◌, refl, subst, ◌∙◌, inl, inr, arith, ◌==◌, ltb,
  if◌then◌else◌, ℤ, ltb_ℤ, ◌≤ℤ◌, Bool-cases,
}
use ic_competition.Programs.Array.{
  Array, swap, IsRearranged, IsRearranged-refl, IsRearranged-trans, IsRearranged-wider,
  swap-IsRearranged, IsSortedFrom,
}

abbrev pub compare_swap : ℕ → Array → Array
compare_swap i a = if ltb_ℤ (a (i + 1)) (a i) then swap a i (i + 1) else a

-- `for (i = 0; i < N - 1 - j; i++)`
bubble_inner : ℕ → ℕ → Array → Array
bubble_inner zero i a = a
bubble_inner (suc k) i a = bubble_inner k (i + 1) (compare_swap i a)

-- `for (j = 0; j < N; j++)`
bubble_outer : ℕ → ℕ → ℕ → Array → Array
bubble_outer n zero j a = a
bubble_outer n (suc r) j a = bubble_outer n r (j + 1) (bubble_inner (n - 1 - j) 0 a)

unfoldable pub bubble_sort : ℕ → Array → Array
unfolding bubble_outer bubble_inner
bubble_sort n a = bubble_outer n n 0 a

-- No value before place `m` is above `b`.
abbrev pub Below : Array → ℕ → ℤ → Type 0
Below a m b = (p : ℕ) → p < m → a p ≤ℤ b

-- After the rounds up to place `m` the greatest of the values up to there stands last.
record Bubbled (m : ℕ) (a a' : Array) : Type 0 where
  greatest : Below a' (m + 1) (a' m)
  bounds : (b : ℤ) → Below a (m + 1) b → Below a' (m + 1) b
  behind : (q : ℕ) → m < q → a' q ≡ a q
  rearranged : IsRearranged a a' (m + 1)

compare_swap-greatest :
    (i : ℕ) (a : Array)
    → Below a (i + 1) (a i)
    → Below (compare_swap i a) (i + 1 + 1) (compare_swap i a (i + 1))
compare_swap-greatest i a h p lt = ground (arith, h p)

compare_swap-bounds :
    (i m : ℕ) (a : Array) (b : ℤ) → i + 1 < m → Below a m b → Below (compare_swap i a) m b
compare_swap-bounds i m a b le h p lt = ground (arith, h p, h i, h (i + 1))

compare_swap-behind : (i q : ℕ) (a : Array) → i + 1 < q → compare_swap i a q ≡ a q
compare_swap-behind i q a lt = ground arith

compare_swap-IsRearranged : (i m : ℕ) (a : Array) → i + 1 < m → IsRearranged a (compare_swap i a) m
compare_swap-IsRearranged i m a lt = elim (Bool-cases (ltb_ℤ (a (i + 1)) (a i))) [
  | inl e ↦ rw e (swap-IsRearranged a m i (i + 1) (omega arith) lt)
  | inr e ↦ rw e (IsRearranged-refl a m)
]

bubble_inner-Bubbled :
    (k i m : ℕ) (a : Array) → m ≡ i + k → Below a (i + 1) (a i) → Bubbled m a (bubble_inner k i a)
unfolding bubble_inner
bubble_inner-Bubbled zero i m a e h =
    let same : i ≡ m = omega arith in
    record {
      greatest = subst (λ j. Below a (j + 1) (a j)) same h;
      bounds = λ b g. g;
      behind = λ q lt. refl;
      rearranged = IsRearranged-refl a (m + 1);
    }
bubble_inner-Bubbled (suc k) i m a e h =
    let c = compare_swap i a in
    let rest = bubble_inner-Bubbled k (i + 1) m c (omega arith) (compare_swap-greatest i a h) in
    let lt : i + 1 < m + 1 = omega arith in
    record {
      greatest = rest.greatest;
      bounds = λ b g. rest.bounds b (compare_swap-bounds i (m + 1) a b lt g);
      behind = λ q g. rest.behind q g ∙ compare_swap-behind i q a (omega arith);
      rearranged = IsRearranged-trans (compare_swap-IsRearranged i (m + 1) a lt) rest.rearranged;
    }

-- From place `m` on, no value is below one that stands before it.
Settled : Array → ℕ → ℕ → Type 0
Settled a m n = (q : ℕ) → m ≤ q → q < n → Below a q (a q)

bubble_inner-Settled :
    (m n : ℕ) (a a' : Array) → m < n → Bubbled m a a' → Settled a (suc m) n → Settled a' m n
unfolding Settled
bubble_inner-Settled m n a a' lt b s q le g p pq = elim (Bool-cases (q == m)) [
  | inl e ↦
      let same : m ≡ q = ground arith in
      let pm : p < m + 1 = omega arith in subst (λ j. a' p ≤ℤ a' j) same (b.greatest p pm)
  | inr ne ↦
      let mq : m < q = ground arith in
      let stays = b.behind q mq in
      let below = s q (omega arith) g in
      elim (Bool-cases (ltb m p)) [
        | inl e ↦
            let moved = b.behind p (ground arith) in let old = below p pq in rw stays (rw moved old)
        | inr e ↦
            let all_below : Below a (m + 1) (a q) = λ p1 lt1. below p1 (omega arith) in
            let old = b.bounds (a q) all_below p (ground arith) in rw stays old
      ]
]

first_only : (a : Array) → Below a (0 + 1) (a 0)
first_only a p lt = let e : 0 ≡ p = omega arith in subst (λ j. a j ≤ℤ a 0) e (omega arith)

bubble_outer-sorted :
    (r j n : ℕ) (a : Array)
    → n ≡ j + r
    → Settled a r n
    → Settled (bubble_outer n r j a) 0 n × IsRearranged a (bubble_outer n r j a) n
unfolding bubble_outer
bubble_outer-sorted zero j n a e s = (s, IsRearranged-refl a n)
bubble_outer-sorted (suc r) j n a e s =
    let inner = bubble_inner-Bubbled (n - 1 - j) 0 r a (omega arith) (first_only a) in
    let rest =
      bubble_outer-sorted r (j + 1) n (bubble_inner (n - 1 - j) 0 a) (omega arith)
        (bubble_inner-Settled r n a (bubble_inner (n - 1 - j) 0 a) (omega arith) inner s) in
    (
      rest.0,
      IsRearranged-trans (IsRearranged-wider (r + 1) n (omega arith) inner.rearranged) rest.1,
    )

-- For every length and every array, bubble_sort leaves the first `n` values in ascending order,
-- each as often as before, and nothing else is changed.
pub bubble_sort-IsSortedFrom : (n : ℕ) (a : Array) → IsSortedFrom a (bubble_sort n a) n
unfolding bubble_sort Settled
bubble_sort-IsSortedFrom n a =
    let run = bubble_outer-sorted n 0 n a (omega arith) (λ q le lt. absurd (omega arith)) in
    record { ordered = λ p q lt g. run.0 q (omega arith) g p lt; rearranged = run.1 }
