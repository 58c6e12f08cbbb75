-- ===== src/Programs/Array.antt =====
-- A static array of `int`, as a function from places to integers; two arrays with the same counts
-- hold the same values in another order.
use ic_competition.Base.{
  ℕ, zero, suc, ◌+◌, ◌-◌, ◌<◌, ◌≤◌, ◌≡◌, refl, ap, subst, ◌∙◌, inl, inr, false, ◌&&◌, arith, ◌==◌,
  if◌then◌else◌, ℤ, pos_part, neg_part, ◌≤ℤ◌, Bool-cases,
}

abbrev pub Array : Type 0
Array = ℕ → ℤ

abbrev pub store : Array → ℕ → ℤ → Array
store a i v j = if i == j then v else a j

-- `t = a[i]; a[i] = a[k]; a[k] = t;`
abbrev pub swap : Array → ℕ → ℕ → Array
swap a i k = store (store a i (a k)) k (a i)

unfoldable pub same_value : ℤ → ℤ → ℕ
same_value v w = if pos_part v == pos_part w && neg_part v == neg_part w then 1 else 0

-- How often a value stands among the first `n`.
unfoldable pub count : Array → ℕ → ℤ → ℕ
count a zero w = 0
count a (suc n) w = same_value (a n) w + count a n w

count-store_outside :
    (a : Array) (n i : ℕ) (v w : ℤ) → n ≤ i → count (store a i v) n w ≡ count a n w
unfolding count
count-store_outside a zero i v w h = refl
count-store_outside a (suc n) i v w h =
    let ne : (i == n) ≡ false = ground arith in
    rw ne (ap (λ c. same_value (a n) w + c) (count-store_outside a n i v w (omega arith)))

pub count-store :
    (a : Array) (n i : ℕ) (v w : ℤ)
    → i < n
    → count (store a i v) n w + same_value (a i) w ≡ count a n w + same_value v w
unfolding count
count-store a zero i v w h = absurd (omega arith)
count-store a (suc n) i v w h = elim (Bool-cases (i == n)) [
  | inl e ↦
      let same : i ≡ n = ground arith in
      let here : store a i v n ≡ v = rw e in
      omega (
        arith,
        count-store_outside a n i v w (omega arith),
        ap (λ x. same_value x w) here,
        ap (λ j. same_value (a j) w) same,
      )
  | inr ne ↦ rw ne (omega (arith, count-store a n i v w (ground arith)))
]

pub record IsRearranged (a a' : Array) (n : ℕ) : Type 0 where
  pub counts : (w : ℤ) → count a' n w ≡ count a n w
  pub outside : (j : ℕ) → n ≤ j → a' j ≡ a j

pub swap-IsRearranged : (a : Array) (n i k : ℕ) → i < n → k < n → IsRearranged a (swap a i k) n
swap-IsRearranged a n i k hi hk = record {
  counts = λ w.
      let at_k : store a i (a k) k ≡ a k = ground arith in
      omega (
        arith,
        count-store a n i (a k) w hi,
        count-store (store a i (a k)) n k (a i) w hk,
        ap (λ x. same_value x w) at_k,
      );
  outside = λ j h. ground arith;
}

pub IsRearranged-refl : (a : Array) (n : ℕ) → IsRearranged a a n
IsRearranged-refl a n = record { counts = λ w. refl; outside = λ j h. refl }

pub IsRearranged-trans :
    {a b c : Array} {n : ℕ} → IsRearranged a b n → IsRearranged b c n → IsRearranged a c n
IsRearranged-trans r q = record {
  counts = λ w. q.counts w ∙ r.counts w;
  outside = λ j h. q.outside j h ∙ r.outside j h;
}

count-beyond :
    (a a' : Array) (m d : ℕ) (w : ℤ)
    → ((j : ℕ) → m ≤ j → a' j ≡ a j)
    → count a' m w ≡ count a m w
    → count a' (d + m) w ≡ count a (d + m) w
unfolding count
count-beyond a a' m zero w same e =
    let z : m ≡ 0 + m = omega arith in subst (λ x. count a' x w ≡ count a x w) z e
count-beyond a a' m (suc d) w same e =
    let next : suc (d + m) ≡ suc d + m = omega arith in
    let here : count a' (suc (d + m)) w ≡ count a (suc (d + m)) w = omega (
      arith,
      ap (λ x. same_value x w) (same (d + m) (omega arith)),
      count-beyond a a' m d w same e,
    ) in
    subst (λ x. count a' x w ≡ count a x w) next here

pub IsRearranged-wider : {a b : Array} (m n : ℕ) → m ≤ n → IsRearranged a b m → IsRearranged a b n
IsRearranged-wider {a} {b} m n le r =
    let e : n - m + m ≡ n = omega arith in
    record {
      counts = λ w.
          subst (λ x. count b x w ≡ count a x w) e
            (count-beyond a b m (n - m) w r.outside (r.counts w));
      outside = λ j h. r.outside j (omega arith);
    }

pub record IsSortedFrom (a a' : Array) (n : ℕ) : Type 0 where
  pub ordered : (p q : ℕ) → p < q → q < n → a' p ≤ℤ a' q
  pub rearranged : IsRearranged a a' n
