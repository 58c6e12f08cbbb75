-- ===== src/Programs/Select.antt =====
-- select_sort of select-sort.c, with `n` for the length N. A loop recurs on the rounds left.
use ic_competition.Base.{
  ℕ, zero, suc, ◌+◌, ◌-◌, ◌<◌, ◌≤◌, ◌≡◌, ap, sym, subst, inl, inr, arith, ◌==◌, if◌then◌else◌, ℤ,
  ltb_ℤ, ◌≤ℤ◌, Bool-cases,
}
use ic_competition.Programs.Array.{
  Array, swap, IsRearranged, IsRearranged-refl, IsRearranged-trans, swap-IsRearranged, IsSortedFrom,
}

-- `for (j = i + 1; j < N; j++) if (a[j] < a[k]) k = j;`
select_least : ℕ → ℕ → ℕ → Array → ℕ
select_least zero j k a = k
select_least (suc r) j k a = select_least r (j + 1) (if ltb_ℤ (a j) (a k) then j else k) a

-- `for (i = 0; i < N - 1; i++)`
select_outer : ℕ → ℕ → ℕ → Array → Array
unfolding select_least
select_outer n zero i a = a
select_outer n (suc r) i a =
    select_outer n r (i + 1) (swap a i (select_least (n - (i + 1)) (i + 1) i a))

unfoldable pub select_sort : ℕ → Array → Array
unfolding select_outer
select_sort n a = select_outer n (n - 1) 0 a

-- `k` is a place from `i` on and before `j`, and no value there is less than the one at `k`.
record IsLeast (a : Array) (i j k : ℕ) : Type 0 where
  from : i ≤ k
  before : k < j
  least : (q : ℕ) → i ≤ q → q < j → a k ≤ℤ a q

select-IsLeast_step :
    (a : Array) (i j k : ℕ)
    → IsLeast a i j k
    → IsLeast a i (j + 1) (if ltb_ℤ (a j) (a k) then j else k)
select-IsLeast_step a i j k l = record {
  from = ground (arith, l.from, l.before);
  before = ground (arith, l.before);
  least = λ q le lt. elim (Bool-cases (q == j)) [
    | inl e ↦
        let same : j ≡ q = ground arith in
        subst (λ x. a (if ltb_ℤ (a j) (a k) then j else k) ≤ℤ a x) same (ground arith)
    | inr ne ↦ let old = l.least q le (ground arith) in ground (arith, old)
  ];
}

select_least-IsLeast :
    (r i j k m : ℕ) (a : Array) → m ≡ j + r → IsLeast a i j k → IsLeast a i m (select_least r j k a)
unfolding select_least
select_least-IsLeast zero i j k m a e l =
    let same : j ≡ m = omega arith in subst (λ x. IsLeast a i x k) same l
select_least-IsLeast (suc r) i j k m a e l =
    select_least-IsLeast r i (j + 1) (if ltb_ℤ (a j) (a k) then j else k) m a (omega arith)
      (select-IsLeast_step a i j k l)

-- Each of the first `i` values is in its place: none behind it is less.
Placed : Array → ℕ → ℕ → Type 0
Placed a i n = (p q : ℕ) → p < i → p < q → q < n → a p ≤ℤ a q

swap_each :
    (P : ℤ → Type 0) (a : Array) (i k q : ℕ) → P (a i) → P (a k) → P (a q) → P (swap a i k q)
swap_each P a i k q pi pk pq = elim (Bool-cases (k == q)) [
  | inl e ↦ rw e pi
  | inr ne ↦ rw ne (elim (Bool-cases (i == q)) [ inl e ↦ rw e pk | inr ne1 ↦ rw ne1 pq ])
]

swap_first : (a : Array) (i k : ℕ) → swap a i k i ≡ a k
swap_first a i k = elim (Bool-cases (k == i)) [
  | inl e ↦ let same : k ≡ i = ground arith in rw e (ap a (sym same))
  | inr ne ↦ rw ne (ground arith)
]

swap_before : (a : Array) (i k p : ℕ) → p < i → i ≤ k → swap a i k p ≡ a p
swap_before a i k p lt le = ground arith

swap-Placed :
    (n i k : ℕ) (a : Array) → IsLeast a i n k → Placed a i n → Placed (swap a i k) (suc i) n
unfolding Placed
swap-Placed n i k a l s p q pi pq qn = elim (Bool-cases (p == i)) [
  | inl e ↦
      let same : i ≡ p = ground arith in
      let all =
        swap_each (λ v. a k ≤ℤ v) a i k q (l.least i (omega arith) (omega arith))
          (l.least k l.from l.before) (l.least q (omega arith) qn) in
      subst (λ x. swap a i k x ≤ℤ swap a i k q) same (rw (swap_first a i k) all)
  | inr ne ↦
      let lt : p < i = ground arith in
      let from = l.from in
      let all =
        swap_each (λ v. a p ≤ℤ v) a i k q (s p i lt lt (omega arith))
          (s p k lt (omega arith) l.before) (s p q lt pq qn) in
      rw (swap_before a i k p lt from) all
]

select_outer-sorted :
    (r i n : ℕ) (a : Array)
    → n - 1 ≡ i + r
    → Placed a i n
    → Placed (select_outer n r i a) (n - 1) n × IsRearranged a (select_outer n r i a) n
unfolding select_outer
select_outer-sorted zero i n a e s =
    let same : i ≡ n - 1 = omega arith in (subst (λ x. Placed a x n) same s, IsRearranged-refl a n)
select_outer-sorted (suc r) i n a e s =
    let k = select_least (n - (i + 1)) (i + 1) i a in
    let here : IsLeast a i (i + 1) i = record {
      from = omega arith;
      before = omega arith;
      least =
          λ q le lt. let same : i ≡ q = omega arith in subst (λ x. a i ≤ℤ a x) same (omega arith);
    } in
    let l = select_least-IsLeast (n - (i + 1)) i (i + 1) i n a (omega arith) here in
    let next : suc i ≡ i + 1 = omega arith in
    let rest =
      select_outer-sorted r (i + 1) n (swap a i k) (omega arith)
        (subst (λ x. Placed (swap a i k) x n) next (swap-Placed n i k a l s)) in
    (rest.0, IsRearranged-trans (swap-IsRearranged a n i k (omega arith) l.before) rest.1)

-- For every length and every array, select_sort leaves the first `n` values in ascending order,
-- each as often as before, and nothing else is changed.
pub select_sort-IsSortedFrom : (n : ℕ) (a : Array) → IsSortedFrom a (select_sort n a) n
unfolding select_sort Placed
select_sort-IsSortedFrom n a =
    let run = select_outer-sorted (n - 1) 0 n a (omega arith) (λ p q lt. absurd (omega arith)) in
    record { ordered = λ p q lt g. run.0 p q (omega arith) lt g; rearranged = run.1 }
