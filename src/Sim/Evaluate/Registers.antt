-- ===== src/Sim/Evaluate/Registers.antt =====
-- The names of the registers.
use ic_competition.Base.{
  ℕ, zero, suc, ◌+◌, ◌-◌, ◌<◌, ◌==◌, ltb, if◌then◌else◌, ◌≡◌, refl, sym, ap, ◌∙◌, subst, ◌⊎◌, inl,
  inr, Bool, true, false, not, ◌&&◌, Option, none, some, List, [], ◌∷◌, arith, Bool-cases,
}
use mathlib.Core.Option.{some-injective, none-ne-some}
use ic_competition.Sim.Commands.{same_text}
use ic_competition.Sim.Evaluate.{regs, find_reg, reg_str2val}

same_text-eq : (a b : List ℕ) → same_text a b ≡ true → a ≡ b
unfolding same_text
same_text-eq [] [] e = refl
same_text-eq [] (y ∷ ys) e = cc
same_text-eq (x ∷ xs) [] e = cc
same_text-eq (x ∷ xs) (y ∷ ys) e =
    let head : x ≡ y = ground arith in
    let tail = same_text-eq xs ys (ground arith) in λ i. head i ∷ tail i

same_text_refl : (a : List ℕ) → same_text a a ≡ true
unfolding same_text
same_text_refl [] = refl
same_text_refl (x ∷ xs) = let rest = same_text_refl xs in ground arith

-- The name at a place.
abbrev pub name_at : List (List ℕ) → ℕ → Option (List ℕ)
name_at [] i = none
name_at (n ∷ ns) zero = some n
name_at (n ∷ ns) (suc i) = name_at ns i

abbrev pub absent : List ℕ → List (List ℕ) → Bool
absent s [] = true
absent s (n ∷ ns) = not (same_text s n) && absent s ns

abbrev pub distinct : List (List ℕ) → Bool
distinct [] = true
distinct (n ∷ ns) = absent n ns && distinct ns

absent-at :
    (s n : List ℕ) (ns : List (List ℕ)) (i : ℕ)
    → absent s ns ≡ true
    → name_at ns i ≡ some n
    → same_text s n ≡ false
absent-at s n [] i a e = absurd (none-ne-some n e)
absent-at s n (x ∷ ns) zero a e =
    subst (λ y. same_text s y ≡ false) (some-injective x n e) (ground arith)
absent-at s n (x ∷ ns) (suc i) a e = absent-at s n ns i (ground arith) e

module _ (read_reg : ℕ → ℕ) where
  find_reg-at :
      (names : List (List ℕ)) (k i : ℕ) (s : List ℕ)
      → distinct names ≡ true
      → name_at names i ≡ some s
      → find_reg read_reg k names s ≡ some (read_reg (k + i))
  unfolding find_reg
  find_reg-at [] k i s d e = absurd (none-ne-some s e)
  find_reg-at (n ∷ ns) k zero s d e =
      let same = subst (λ y. same_text n y ≡ true) (some-injective n s e) (same_text_refl n) in
      let place : k + 0 ≡ k = omega arith in rw (same, place) refl
  find_reg-at (n ∷ ns) k (suc i) s d e =
      let differs = absent-at n s ns i (ground arith) e in
      let place : k + 1 + i ≡ k + suc i = omega arith in
      rw differs (find_reg-at ns (k + 1) i s (ground arith) e ∙ ap (λ j. some (read_reg j)) place)

  find_reg-some :
      (names : List (List ℕ)) (k v : ℕ) (s : List ℕ)
      → find_reg read_reg k names s ≡ some v
      → (i : ℕ) × (name_at names i ≡ some s) × (v ≡ read_reg (k + i))
  unfolding find_reg
  find_reg-some [] k v s e = absurd (none-ne-some v e)
  find_reg-some (n ∷ ns) k v s e = elim (Bool-cases (same_text n s)) [
    | inl same ↦
        let place : k + 0 ≡ k = omega arith in
        (
          0,
          ap some (same_text-eq n s same),
          sym (some-injective (read_reg k) v (sym (rw same refl) ∙ e)) ∙ ap read_reg (sym place),
        )
    | inr differs ↦
        let rest = find_reg-some ns (k + 1) v s (sym (rw differs refl) ∙ e) in
        let place : k + 1 + rest.0 ≡ k + suc rest.0 = omega arith in
        (suc rest.0, rest.1, rest.2 ∙ ap read_reg place)
  ]

regs-distinct : distinct regs ≡ true
unfolding regs same_text
regs-distinct = refl

-- `pc` is no register's name.
regs-pc : absent (b'p' ∷ b'c' ∷ []) regs ≡ true
unfolding regs same_text
regs-pc = refl

from-zero : (j : ℕ) → 0 + j ≡ j
from-zero j = omega arith

-- The names of the RISC-V ABI, by the register's number; `x0` is `$0`.
abbrev pub numbered : ℕ → ℕ → List ℕ
numbered c k = c ∷ (if ltb k 10 then (b'0' + k) ∷ [] else b'1' ∷ (b'0' + (k - 10)) ∷ [])

abbrev pub abi_name : ℕ → List ℕ
abi_name i =
    if i == 0
    then b'$' ∷ b'0' ∷ []
    else if i == 1
    then b'r' ∷ b'a' ∷ []
    else if i == 2
    then b's' ∷ b'p' ∷ []
    else if i == 3
    then b'g' ∷ b'p' ∷ []
    else if i == 4
    then b't' ∷ b'p' ∷ []
    else if ltb i 8
    then numbered b't' (i - 5)
    else if ltb i 10
    then numbered b's' (i - 8)
    else if ltb i 18
    then numbered b'a' (i - 10)
    else if ltb i 28
    then numbered b's' (i - 16)
    else numbered b't' (i - 25)

abi_list : ℕ → ℕ → List (List ℕ)
abi_list zero i = []
abi_list (suc r) i = abi_name i ∷ abi_list r (i + 1)

regs-abi_list : regs ≡ abi_list 32 0
unfolding regs abi_list
regs-abi_list = refl

name_at-abi_list : (r i k : ℕ) → k < r → name_at (abi_list r i) k ≡ some (abi_name (i + k))
unfolding abi_list
name_at-abi_list zero i k lt = absurd (omega arith)
name_at-abi_list (suc r) i zero lt =
    let place : i + 0 ≡ i = omega arith in ap (λ j. some (abi_name j)) (sym place)
name_at-abi_list (suc r) i (suc k) lt =
    let place : i + 1 + k ≡ i + suc k = omega arith in
    name_at-abi_list r (i + 1) k (omega arith) ∙ ap (λ j. some (abi_name j)) place

name_at-bound : (r i k : ℕ) (s : List ℕ) → name_at (abi_list r i) k ≡ some s → k < r
unfolding abi_list
name_at-bound zero i k s e = absurd (none-ne-some s e)
name_at-bound (suc r) i zero s e = omega arith
name_at-bound (suc r) i (suc k) s e = let rest = name_at-bound r (i + 1) k s e in omega arith

name_at-regs : (i : ℕ) → i < 32 → name_at regs i ≡ some (abi_name i)
name_at-regs i lt =
    subst (λ names. name_at names i ≡ some (abi_name i)) (sym regs-abi_list)
      (name_at-abi_list 32 0 i lt ∙ ap (λ j. some (abi_name j)) (from-zero i))

name_at-regs_only : (i : ℕ) (s : List ℕ) → name_at regs i ≡ some s → (i < 32) × (s ≡ abi_name i)
name_at-regs_only i s e =
    let bound =
      name_at-bound 32 0 i s (subst (λ names. name_at names i ≡ some s) regs-abi_list e) in
    (bound, some-injective s (abi_name i) (sym e ∙ name_at-regs i bound))

pub record Named (read_pc : ℕ) (read_reg : ℕ → ℕ) : Type 0 where
  pub register : (i : ℕ) → i < 32 → reg_str2val read_pc read_reg (abi_name i) ≡ some (read_reg i)
  pub counter : reg_str2val read_pc read_reg (b'p' ∷ b'c' ∷ []) ≡ some read_pc
  pub only :
      (s : List ℕ) (v : ℕ)
      → reg_str2val read_pc read_reg s ≡ some v
      → ((s ≡ b'p' ∷ b'c' ∷ []) × (v ≡ read_pc))
        ⊎ ((i : ℕ) × (i < 32) × (s ≡ abi_name i) × (v ≡ read_reg i))

pub reg_str2val-Named : (read_pc : ℕ) (read_reg : ℕ → ℕ) → Named read_pc read_reg
unfolding reg_str2val
reg_str2val-Named read_pc read_reg =
    let pc : List ℕ = b'p' ∷ b'c' ∷ [] in
    record {
      register = λ i lt.
          let s = abi_name i in
          let e = name_at-regs i lt in
          let other = absent-at pc s regs i regs-pc e in
          rw other (
            find_reg-at read_reg regs 0 i s regs-distinct e
            ∙ ap (λ j. some (read_reg j)) (from-zero i));
      counter = rw (same_text_refl pc) refl;
      only = λ s v e. elim (Bool-cases (same_text pc s)) [
        | inl same ↦
            inl (
              sym (same_text-eq pc s same),
              sym (some-injective read_pc v (sym (rw same refl) ∙ e)),
            )
        | inr differs ↦
            let found = find_reg-some read_reg regs 0 v s (sym (rw differs refl) ∙ e) in
            let name = name_at-regs_only found.0 s found.1 in
            inr (found.0, name.0, name.1, found.2 ∙ ap read_reg (from-zero found.0))
      ];
    }
