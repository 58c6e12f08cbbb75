-- ===== src/Programs/Hanoi/Rules.antt =====
-- The rules of the puzzle: one disk at a time, and none on a smaller one.
use ic_competition.Base.{
  ℕ, zero, suc, ◌+◌, ◌-◌, ◌<◌, ◌≡◌, ◌≢◌, refl, sym, ap, ◌∙◌, ◌==◌, if◌then◌else◌, true, false, List,
  [], ◌∷◌, arith,
}
use ic_competition.Programs.Hanoi.{Tower, Towers, add_to, add_disk, remove_disk, move_disk}

-- The disks of a tower, the top one first.
abbrev pub disks_below : (ℕ → ℕ) → ℕ → List ℕ
disks_below cap zero = []
disks_below cap (suc n) = cap n ∷ disks_below cap n

abbrev pub disks : Tower → List ℕ
disks x = disks_below x.cap x.n

abbrev pub Fits : ℕ → List ℕ → Type 0
Fits d [] = Unit {0}
Fits d (y ∷ l) = d < y

-- So many moves of the puzzle, each of a top disk to another tower where it fits.
pub data Moves : ℕ → Towers → Towers → Type 0 where
  done : {t : Towers} → Moves 0 t t
  one :
      {k : ℕ} {t u : Towers} (from to d : ℕ) (l : List ℕ)
      → disks (t from) ≡ d ∷ l
      → from ≢ to
      → Fits d (disks (t to))
      → Moves k (move_disk from to t) u
      → Moves (suc k) t u

pub Moves-append : {j k : ℕ} {t u v : Towers} → Moves j t u → Moves k u v → Moves (j + k) t v
Moves-append {k} {t} {v} done q = let e : 0 + k ≡ k = omega arith in rw e q
Moves-append {k} {v} (one {k = j} from to d l top ne fits p) q =
    let e : suc j + k ≡ suc (j + k) = omega arith in
    rw e (one from to d l top ne fits (Moves-append p q))

disks_below-same :
    (cap : ℕ → ℕ) (d m n : ℕ)
    → n < suc m
    → disks_below (λ k. if k == m then d else cap k) n ≡ disks_below cap n
disks_below-same cap d m zero h = refl
disks_below-same cap d m (suc n) h =
    let other : (if n == m then d else cap n) ≡ cap n = ground arith in
    let rest = disks_below-same cap d m n (omega arith) in λ i. other i ∷ rest i

disks-add_to : (x : Tower) (d : ℕ) → disks (add_to x d) ≡ d ∷ disks x
disks-add_to x d =
    let next : x.n + 1 ≡ suc x.n = omega arith in
    let here : (if x.n == x.n then d else x.cap x.n) ≡ d = ground arith in
    let rest = disks_below-same x.cap d x.n x.n (omega arith) in rw next (λ i. here i ∷ rest i)

cons-injective : (a b : ℕ) (k l : List ℕ) → a ∷ k ≡ b ∷ l → (a ≡ b) × (k ≡ l)
cons-injective a b k l e = (cc, cc)

top_disk :
    (cap : ℕ → ℕ) (n d : ℕ) (l : List ℕ)
    → disks_below cap n ≡ d ∷ l
    → (cap (n - 1) ≡ d) × (disks_below cap (n - 1) ≡ l)
top_disk cap zero d l e = cc
top_disk cap (suc n) d l e =
    let down : suc n - 1 ≡ n = omega arith in
    rw down (cons-injective (cap n) d (disks_below cap n) l e)

-- What a move does to the towers.
pub record Moved (from to d : ℕ) (l : List ℕ) (t u : Towers) : Type 0 where
  pub taken : disks (u from) ≡ l
  pub put_on : disks (u to) ≡ d ∷ disks (t to)
  pub others : (j : ℕ) → j ≢ from → j ≢ to → u j ≡ t j

==-same : (a : ℕ) → (a == a) ≡ true
==-same a = ground arith

==-not : (a b : ℕ) → a ≢ b → (a == b) ≡ false
==-not a b ne = ground arith

pub move_disk-Moved :
    (from to d : ℕ) (l : List ℕ) (t : Towers)
    → disks (t from) ≡ d ∷ l
    → from ≢ to
    → Moved from to d l t (move_disk from to t)
unfolding add_disk remove_disk
move_disk-Moved from to d l t top ne =
    let split = top_disk (t from).cap (t from).n d l top in
    let away = ==-not from to ne in
    let back = ==-not to from (λ e. ne (sym e)) in
    record {
      taken = rw (back, ==-same from) split.1;
      put_on =
          rw (==-same to, away)
            (disks-add_to (t to) ((t from).cap ((t from).n - 1))
              ∙ ap (λ x. x ∷ disks (t to)) split.0);
      others = λ j a b. rw (==-not to j (λ e. b (sym e)), ==-not from j (λ e. a (sym e))) refl;
    }
