-- ===== src/Sim/Commands/Pools.antt =====
-- The pools that new_wp() and delete_wp() return.
use ic_competition.Base.{
  ℕ, suc, ◌+◌, ◌^◌, ◌<◌, ◌==◌, ◌≡◌, refl, sym, ◌∙◌, subst, ◌⊎◌, inl, inr, ltb, some, List, [], ◌∷◌,
  arith, Bool-cases, Option-cases, length,
}
use mathlib.Core.Option.{some-injective, none-ne-some}
use ic_competition.Sdb.Outcome.{Outcome}
use ic_competition.Sdb.Watchpoint.{
  Pool, next_no, new_wp, Created, created, refused, stopped, delete_wp,
}
use ic_competition.Sdb.Watchpoint.Chain.{IsPool, Chain-nil, Chain-head}
use ic_competition.Sdb.Watchpoint.Create.{HasNumber, HasRoom, Added, new_wp-Added}
use ic_competition.Sdb.Watchpoint.Delete.{delete_wp-Freed}
use ic_competition.Sim.Exec.Sane.{Outcome-cases}

-- The first watchpoint of the list is a node of the pool.
head-node : (p : Pool) (used free : List ℕ) (h : ℕ) → IsPool p used free → p.head ≡ some h → h < 32
head-node p [] free h i e = absurd (none-ne-some h (sym (Chain-nil i.used_chain) ∙ e))
head-node p (x ∷ used) free h i e =
    let same : x ≡ h = some-injective x h (sym (Chain-head i.used_chain) ∙ e) in
    ground (arith, i.partition h)

HasRoom-number :
    (n : ℕ) (p : Pool) (used free : List ℕ) → IsPool p used free → HasRoom (suc n) p → HasNumber p
HasRoom-number n p used free i room h e =
    let small = room h (head-node p used free h i e) in omega arith

next_no-room :
    (n : ℕ) (p : Pool) (used free : List ℕ)
    → IsPool p used free
    → HasRoom (suc n) p
    → next_no p + n < 2 ^ 31
next_no-room n p used free i room = elim (Option-cases p.head) [
  | inl empty ↦ let small = room 0 (omega arith) in rw empty (omega arith)
  | inr got ↦ let small = room got.0 (head-node p used free got.0 i got.1) in rw got.1 (omega arith)
]

Added-HasRoom :
    (expr : List ℕ → Outcome) (n : ℕ) (p p' : Pool) (used free e : List ℕ) (w v : ℕ)
    → IsPool p used (w ∷ free)
    → HasRoom (suc n) p
    → Added expr p used free w e v p'
    → HasRoom n p'
Added-HasRoom expr n p p' used free e w v i room a j lt = elim (Bool-cases (j == w)) [
  | inl here ↦
      let same : w ≡ j = ground arith in
      let small = next_no-room n p used (w ∷ free) i room in
      subst (λ k. p'.no k + n < 2 ^ 31) same (subst (λ m. m + n < 2 ^ 31) (sym a.number) small)
  | inr there ↦
      let kept = (a.others j (ground arith)).0 in
      let small = room j lt in subst (λ m. m + n < 2 ^ 31) (sym kept) (omega arith)
]

module _ (expr : List ℕ → Outcome) where
  created-injective : (w v : ℕ) (p q : Pool) → created w p ≡ created v q → p ≡ q
  created-injective w v p q e = cc

  -- A pool that new_wp() returns is one, with less room for numbers.
  pub new_wp-pool :
      (n : ℕ) (p q : Pool) (used free e : List ℕ) (w : ℕ)
      → IsPool p used free
      → HasRoom (suc n) p
      → new_wp expr p e ≡ created w q
      → (used' : List ℕ) × (free' : List ℕ) × IsPool q used' free' × HasRoom n q
  unfolding new_wp
  new_wp-pool n p q used [] e w i room done =
      let stops : stopped ≡ created w q = sym (rw (Chain-nil i.free_chain, new_wp) refl) ∙ done in
      cc
  new_wp-pool n p q used (x ∷ free) e w i room done = elim (Bool-cases (ltb 31 (length e))) [
    | inl long ↦
        let stops : refused ≡ created w q =
          sym (rw (Chain-head i.free_chain, new_wp, long) refl) ∙ done in
        cc
    | inr fits ↦ elim (Outcome-cases (expr e)) [
      | inl got ↦
          let a =
            new_wp-Added expr p used free x e got.0 i (HasRoom-number n p used (x ∷ free) i room)
              (ground arith) got.1 in
          let same = created-injective x w a.0 q (sym a.1 ∙ done) in
          let rest = Added-HasRoom expr n p a.0 used free e x got.0 i room a.2 in
          (
            x ∷ used,
            free,
            subst (λ y. IsPool y (x ∷ used) free) same a.2.pool,
            subst (λ y. HasRoom n y) same rest,
          )
      | inr (inl f) ↦
          let stops : refused ≡ created w q =
            sym (rw (Chain-head i.free_chain, new_wp, fits, f) refl) ∙ done in
          cc
      | inr (inr f) ↦
          let stops : stopped ≡ created w q =
            sym (rw (Chain-head i.free_chain, new_wp, fits, f) refl) ∙ done in
          cc
    ]
  ]

pub delete_wp-pool :
    (m : ℕ) (p q : Pool) (used free : List ℕ) (n : ℕ)
    → IsPool p used free
    → HasRoom m p
    → delete_wp 33 p n ≡ some q
    → (used' : List ℕ) × (free' : List ℕ) × IsPool q used' free' × HasRoom m q
delete_wp-pool m p q used free n i room done =
    elim (delete_wp-Freed 33 p used free n i (omega arith)) [
      | inl (w, p', run, freed, at, only) ↦
          let same = some-injective p' q (sym run ∙ done) in
          let kept : HasRoom m p' =
            λ j lt. subst (λ no. no j + m < 2 ^ 31) (sym freed.numbers) (room j lt) in
          subst (λ y. (used' : List ℕ) × (free' : List ℕ) × IsPool y used' free' × HasRoom m y) same
            (_, _, freed.pool, kept)
      | inr (run, absent) ↦
          let same = some-injective p q (sym run ∙ done) in
          (used, free, subst (λ y. IsPool y used free) same i, subst (λ y. HasRoom m y) same room)
    ]

pub Created-cases :
    (x : Created) → ((w : ℕ) × (p : Pool) × (x ≡ created w p)) ⊎ ((x ≡ refused) ⊎ (x ≡ stopped))
Created-cases (created w p) = inl (w, p, refl)
Created-cases refused = inr (inl refl)
Created-cases stopped = inr (inr refl)
