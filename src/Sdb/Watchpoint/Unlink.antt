-- ===== src/Sdb/Watchpoint/Unlink.antt =====
-- The loop of free_wp: the list behind a node loses the unlinked node and nothing else.
use ic_competition.Base.{
  ℕ, zero, suc, ◌+◌, ◌≤◌, ◌<◌, ◌≡◌, ◌≢◌, inl, inr, refl, false, Option, some, List, [], ◌∷◌, arith,
  ◌==◌, if◌then◌else◌, length, ap, sym, subst, ◌∙◌, Bool-cases, ==-refl,
}
use ic_competition.Sdb.Watchpoint.{upd, unlink_loop}
use ic_competition.Sdb.Watchpoint.Chain.{
  Chain, stop, node, count, Falling, Chain-head, Chain-tail, Chain-upd, Chain-ne,
}

-- The list without the first occurrence of a node.
abbrev pub erase : ℕ → List ℕ → List ℕ
erase w [] = []
erase w (x ∷ xs) = if x == w then xs else x ∷ erase w xs

pub count-erase :
    (i w : ℕ) (xs : List ℕ)
    → count w xs ≢ 0
    → count i (erase w xs) + (if w == i then 1 else 0) ≡ count i xs
count-erase i w [] h = absurd (h refl)
count-erase i w (x ∷ xs) h = elim (Bool-cases (x == w)) [
  | inl same ↦ rw same (ground arith)
  | inr other ↦ rw other (ground (arith, count-erase i w xs))
]

pub length-erase : (w : ℕ) (xs : List ℕ) → count w xs ≢ 0 → suc (length (erase w xs)) ≡ length xs
length-erase w [] h = absurd (h refl)
length-erase w (x ∷ xs) h = ground (arith, length-erase w xs)

Falling-below :
    (number : ℕ → ℕ) (x y : ℕ) (xs : List ℕ)
    → number y < number x
    → Falling number (y ∷ xs)
    → Falling number (x ∷ xs)
Falling-below number x y [] h f = tt
Falling-below number x y (z ∷ xs) h f = (omega arith, f.1)

-- Leaving out a node keeps the numbers falling, and the first of them at most what it was.
pub Falling-erase :
    (number : ℕ → ℕ) (w x : ℕ) (xs : List ℕ)
    → Falling number (x ∷ xs)
    → Falling number (x ∷ erase w xs)
Falling-erase number w x [] f = tt
Falling-erase number w x (y ∷ xs) f = elim (Bool-cases (y == w)) [
  | inl same ↦ rw same (Falling-below number x y xs f.0 f.1)
  | inr other ↦ rw other (f.0, Falling-erase number w y xs f.1)
]

pub Falling-tail :
    (number : ℕ → ℕ) (x : ℕ) (xs : List ℕ) → Falling number (x ∷ xs) → Falling number xs
Falling-tail number x [] f = tt
Falling-tail number x (y ∷ xs) f = f.1

-- Behind the unlinked node the loop changes nothing.
unlink_loop_absent :
    (k w : ℕ) {next : ℕ → Option ℕ} {q : Option ℕ} {xs : List ℕ}
    → Chain next q xs
    → count w xs ≡ 0
    → length xs < k
    → unlink_loop k next w q ≡ some next
unfolding unlink_loop
unlink_loop_absent zero w c out fuel = absurd (omega arith)
unlink_loop_absent (suc k) w stop out fuel = refl
unlink_loop_absent (suc k) w (node {i} {xs} c) out fuel =
    rw (Chain-ne w c (ground arith)) (unlink_loop_absent k w c (ground arith) (omega arith))

-- What the loop makes of the list behind a node `c`: `w` is left out, and no other list changes.
pub record Unlinked (next : ℕ → Option ℕ) (w c : ℕ) (xs : List ℕ) (r : Option (ℕ → Option ℕ))
    : Type 0 where
  pub links : ℕ → Option ℕ
  pub returns : r ≡ some links
  pub chain : Chain links (links c) (erase w xs)
  pub others : (j : ℕ) → count j (c ∷ xs) ≡ 0 → links j ≡ next j

module _ (k w c : ℕ) (next : ℕ → Option ℕ) where
  Unlinked-hit :
      (ys : List ℕ)
      → next c ≡ some w
      → Chain next (next w) ys
      → count w ys ≡ 0
      → count c ys ≡ 0
      → c ≢ w
      → length ys < k
      → Unlinked next w c (w ∷ ys) (unlink_loop (suc k) next w (some c))
  unfolding unlink_loop
  Unlinked-hit ys e ch out out' ne fuel =
      let chain : Chain (upd next c (next w)) (next w) ys = Chain-upd c (next w) ch out' in
      let same : (if c == c then next w else next c) ≡ next w = rw ==-refl in
      record {
        links = upd next c (next w);
        returns = rw (e, ==-refl) (rw same (unlink_loop_absent k w chain out fuel));
        chain = rw (==-refl c, ==-refl w) chain;
        others = λ j h. ground arith;
      }

  Unlinked-miss :
      (y : ℕ) (ys : List ℕ)
      → next c ≡ some y
      → (y == w) ≡ false
      → count c (y ∷ ys) ≡ 0
      → Unlinked next w y ys (unlink_loop k next w (some y))
      → Unlinked next w c (y ∷ ys) (unlink_loop (suc k) next w (some c))
  unfolding unlink_loop
  Unlinked-miss y ys e miss out rest = record {
    links = rest.links;
    returns = rw (e, miss) (rw e rest.returns);
    chain = rw miss (
        subst (λ q. Chain rest.links q (y ∷ erase w ys)) (sym (rest.others c out ∙ e))
          (node rest.chain));
    others = λ j h. rest.others j (ground arith);
  }

pub unlink_loop-Unlinked :
    (k w c : ℕ) (next : ℕ → Option ℕ) (xs : List ℕ)
    → Chain next (next c) xs
    → count w xs ≢ 0
    → ((j : ℕ) → count j (c ∷ xs) ≤ 1)
    → suc (length xs) < k
    → Unlinked next w c xs (unlink_loop k next w (some c))
unlink_loop-Unlinked zero w c next xs ch mem distinct fuel = absurd (omega arith)
unlink_loop-Unlinked (suc k) w c next [] ch mem distinct fuel = absurd (mem refl)
unlink_loop-Unlinked (suc k) w c next (y ∷ ys) ch mem distinct fuel = elim (Bool-cases (y == w)) [
  | inl hit ↦
      let e : y ≡ w = ground arith in
      subst (λ z. Unlinked next w c (z ∷ ys) (unlink_loop (suc k) next w (some c))) (sym e)
        (Unlinked-hit k w c next ys (Chain-head ch ∙ ap some e)
          (subst (λ z. Chain next (next z) ys) e (Chain-tail ch)) (ground (arith, distinct w))
          (ground (arith, distinct c)) (ground (arith, distinct w)) (omega arith))
  | inr miss ↦ Unlinked-miss k w c next y ys (Chain-head ch) miss (ground (arith, distinct c)) (
      unlink_loop-Unlinked k w y next ys (Chain-tail ch) (ground arith)
        (λ j. ground (arith, distinct j)) (omega arith))
]
