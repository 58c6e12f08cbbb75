-- ===== src/Klib/Str/Compare.antt =====
-- strcmp, strncmp and memcmp decide the order of the byte sequences that they read.
use ic_competition.Base.{
  ℕ, zero, suc, ◌+◌, ◌<◌, ◌≡◌, ◌≢◌, refl, ◌↔◌, ◌⊎◌, inl, inr, not, some, List, [], ◌∷◌, arith,
  length, ℤ, pos, sub_ℕ, ◌<ℤ◌, Bool-cases, ==-refl, ◌==◌, if◌then◌else◌,
}
use ic_competition.Klib.Memory.{Mem, IsStr, nul, char}
use ic_competition.Klib.Str.{strcmp, strncmp, memcmp}

-- The order of a dictionary, by the values of the characters.
abbrev pub Before : List ℕ → List ℕ → Type 0
Before xs [] = ⊥
Before [] (y ∷ ys) = Unit {0}
Before (x ∷ xs) (y ∷ ys) = (x < y) ⊎ ((x ≡ y) × Before xs ys)

-- What a comparison's result says of two sequences.
pub record Orders (xs ys : List ℕ) (r : ℤ) : Type 0 where
  pub equal : (r ≡ pos 0) ↔ (xs ≡ ys)
  pub before : (r <ℤ pos 0) ↔ Before xs ys

Orders-nil : Orders [] [] (pos 0)
Orders-nil = record { equal = ((λ _. refl), (λ _. refl)); before = ground arith }

Orders-nil-cons : {y : ℕ} (ys : List ℕ) → y ≢ 0 → Orders [] (y ∷ ys) (sub_ℕ 0 y)
Orders-nil-cons ys ne = record { equal = ground arith; before = ground arith }

Orders-cons-nil : {x : ℕ} (xs : List ℕ) → x ≢ 0 → Orders (x ∷ xs) [] (sub_ℕ x 0)
Orders-cons-nil xs ne = record { equal = ground arith; before = ground arith }

Orders-ne : {x y : ℕ} (xs ys : List ℕ) → x ≢ y → Orders (x ∷ xs) (y ∷ ys) (sub_ℕ x y)
Orders-ne xs ys ne = record { equal = ground arith; before = ground arith }

Orders-eq : {x y : ℕ} {xs ys : List ℕ} {r : ℤ} → x ≡ y → Orders xs ys r → Orders (x ∷ xs) (y ∷ ys) r
Orders-eq e o = record { equal = ground (arith, o.equal); before = ground (arith, o.before) }

-- On two strings, with more fuel than the first has characters, `strcmp` returns, and its result is
-- zero exactly when they are equal and negative exactly when the first comes before the second.
pub strcmp-Orders :
    (fuel : ℕ) {m : Mem} {s1 s2 : ℕ} {xs ys : List ℕ}
    → IsStr m s1 xs
    → IsStr m s2 ys
    → length xs < fuel
    → (r : ℤ) × (strcmp fuel m s1 s2 ≡ some r) × Orders xs ys r
unfolding strcmp
strcmp-Orders zero v w enough = absurd (omega arith)
strcmp-Orders (suc k) (nul e) (nul e') enough = (pos 0, ground arith, Orders-nil)
strcmp-Orders (suc k) (nul e) (char {c = y} {cs = ys} e' ne' w) enough =
    (sub_ℕ 0 y, ground arith, Orders-nil-cons ys ne')
strcmp-Orders (suc k) (char {c = x} {cs = xs} e ne v) (nul e') enough =
    (sub_ℕ x 0, ground arith, Orders-cons-nil xs ne)
strcmp-Orders (suc k) (char {c = x} {cs = xs} e ne v) (char {c = y} {cs = ys} e' ne' w) enough =
    elim (Bool-cases (x == y)) [
      | inl same ↦
          let (r, run, o) = strcmp-Orders k v w (omega arith) in
          (r, ground arith, Orders-eq (ground arith) o)
      | inr differ ↦ (sub_ℕ x y, ground arith, Orders-ne xs ys (ground arith))
    ]

-- The bytes of memory from `s` on.
abbrev pub bytes : Mem → ℕ → ℕ → List ℕ
bytes m s zero = []
bytes m s (suc n) = m s ∷ bytes m (s + 1) n

-- The result of `memcmp` is zero exactly when the two ranges of `n` bytes are equal, and negative
-- exactly when the first comes before the second by the values of the bytes.
pub memcmp-Orders :
    (m : Mem) (s1 s2 n : ℕ) → Orders (bytes m s1 n) (bytes m s2 n) (memcmp m s1 s2 n)
unfolding memcmp
memcmp-Orders m s1 s2 zero = Orders-nil
memcmp-Orders m s1 s2 (suc n) = elim (Bool-cases (m s1 == m s2)) [
  | inl same ↦ rw same (Orders-eq (ground arith) (memcmp-Orders m (s1 + 1) (s2 + 1) n))
  | inr differ ↦ rw differ (Orders-ne _ _ (ground arith))
]

-- The bytes from `s` on up to a NUL, `n` of them at most.
abbrev pub text : Mem → ℕ → ℕ → List ℕ
text m s zero = []
text m s (suc n) = if m s == 0 then [] else m s ∷ text m (s + 1) n

Orders-text_ne :
    (a b : ℕ) (xs ys : List ℕ)
    → a ≢ b
    → Orders (if a == 0 then [] else a ∷ xs) (if b == 0 then [] else b ∷ ys) (sub_ℕ a b)
Orders-text_ne a b xs ys ne = record { equal = ground arith; before = ground arith }

Orders-text :
    (a b : ℕ) {xs ys : List ℕ} {r : ℤ}
    → Orders xs ys r
    → Orders
        (if a == 0 then [] else a ∷ xs)
        (if b == 0 then [] else b ∷ ys)
        (if not (a == b) then sub_ℕ a b else if a == 0 then pos 0 else r)
Orders-text a b {xs} {ys} o = elim (Bool-cases (a == b)) [
  | inl same ↦
      let e : a ≡ b = ground arith in
      rw e (
        rw ==-refl (elim (Bool-cases (b == 0)) [
          | inl z ↦ rw z Orders-nil
          | inr nz ↦ rw nz (Orders-eq refl o)
        ]))
  | inr differ ↦ rw differ (Orders-text_ne a b xs ys (ground arith))
]

-- The result of `strncmp` is zero exactly when the characters before a NUL among the first `n` bytes
-- of the two operands are equal, and negative exactly when those of the first come before those of
-- the second.
pub strncmp-Orders :
    (m : Mem) (s1 s2 n : ℕ) → Orders (text m s1 n) (text m s2 n) (strncmp m s1 s2 n)
unfolding strncmp
strncmp-Orders m s1 s2 zero = Orders-nil
strncmp-Orders m s1 s2 (suc n) = Orders-text (m s1) (m s2) (strncmp-Orders m (s1 + 1) (s2 + 1) n)
