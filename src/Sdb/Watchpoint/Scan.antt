-- ===== src/Sdb/Watchpoint/Scan.antt =====
-- scan_wp_diff reports and updates the first watchpoint whose value has changed.
use ic_competition.Base.{
  ℕ, zero, suc, ◌<◌, ◌≡◌, ◌≢◌, ◌⊎◌, inl, inr, refl, true, false, Option, List, [], ◌∷◌, ◌++◌, arith,
  ◌==◌, length, ap, Bool-cases,
}
use ic_competition.Sdb.Outcome.{Outcome, value}
use ic_competition.Sdb.Watchpoint.{Pool, upd, scan_loop, scan_wp_diff, scanned, nr_wp}
use ic_competition.Sdb.Watchpoint.Chain.{Chain, stop, node, IsPool}

module _ (expr : List ℕ → Outcome) where
  -- `vals` gives the present value of each watchpoint's expression.
  abbrev pub Evaluates : Pool → (ℕ → ℕ) → List ℕ → Type 0
  Evaluates p vals [] = Unit {0}
  Evaluates p vals (i ∷ xs) = (expr (p.e_str i) ≡ value (vals i)) × Evaluates p vals xs

  -- The recorded value of each is the present one.
  abbrev pub Unchanged : Pool → (ℕ → ℕ) → List ℕ → Type 0
  Unchanged p vals [] = Unit {0}
  Unchanged p vals (i ∷ xs) = (p.pre_result i ≡ vals i) × Unchanged p vals xs

  abbrev pub triggered : Pool → ℕ → ℕ → Pool
  triggered p w v = record p { pre_result = upd p.pre_result w v }

  -- The watchpoint `w` is the first in the list whose value is not the recorded one.
  pub record FirstChanged (p : Pool) (vals : ℕ → ℕ) (xs : List ℕ) (w : ℕ) : Type 0 where
    pub before : List ℕ
    pub after : List ℕ
    pub splits : xs ≡ before ++ w ∷ after
    pub unchanged : Unchanged p vals before
    pub changed : p.pre_result w ≢ vals w

  scan_loop-cases :
      (k : ℕ) (p : Pool) (vals : ℕ → ℕ) {q : Option ℕ} {xs : List ℕ}
      → Chain p.next q xs
      → Evaluates p vals xs
      → length xs < k
      → ((scan_loop expr k p q ≡ scanned p false) × Unchanged p vals xs)
        ⊎ ((w : ℕ) × (scan_loop expr k p q ≡ scanned (triggered p w (vals w)) true)
            × FirstChanged p vals xs w)
  unfolding scan_loop
  scan_loop-cases zero p vals c ev fuel = absurd (omega arith)
  scan_loop-cases (suc k) p vals stop ev fuel = inl (refl, tt)
  scan_loop-cases (suc k) p vals (node {i} {xs} c) ev fuel =
      elim (Bool-cases (p.pre_result i == vals i)) [
        | inl same ↦ elim (scan_loop-cases k p vals c ev.1 (omega arith)) [
          | inl (run, un) ↦ inl (rw (ev.0, scan_loop) (rw same run), (ground arith, un))
          | inr (w, run, f) ↦ inr (
            w,
            rw (ev.0, scan_loop) (rw same run),
            record {
              before = i ∷ f.before;
              after = f.after;
              splits = ap (◌∷◌ i) f.splits;
              unchanged = (ground arith, f.unchanged);
              changed = f.changed;
            },
          )
        ]
        | inr differs ↦ inr (
          i,
          rw (ev.0, scan_loop) (rw differs),
          record { before = []; after = xs; splits = refl; unchanged = tt; changed = ground arith },
        )
      ]

  -- Where every expression evaluates, `scan_wp_diff` returns: false and the pool as it was, if every
  -- recorded value is the present one, or else true, and of the whole pool only the recorded value
  -- of the first changed watchpoint is brought up to date; the pool stays well formed.
  pub scan_wp_diff-cases :
      (fuel : ℕ) (p : Pool) (used free : List ℕ) (vals : ℕ → ℕ)
      → IsPool p used free
      → Evaluates p vals used
      → nr_wp < fuel
      → ((scan_wp_diff expr fuel p ≡ scanned p false) × Unchanged p vals used)
        ⊎ ((w : ℕ) × (scan_wp_diff expr fuel p ≡ scanned (triggered p w (vals w)) true)
            × FirstChanged p vals used w
            × IsPool (triggered p w (vals w)) used free)
  unfolding scan_wp_diff
  scan_wp_diff-cases fuel p used free vals i ev enough =
      elim (scan_loop-cases fuel p vals i.used_chain ev (omega (arith, i.size))) [
        | inl r ↦ inl r
        | inr (w, run, f) ↦ inr (
          w,
          run,
          f,
          record {
            used_chain = i.used_chain;
            free_chain = i.free_chain;
            partition = i.partition;
            size = i.size;
            falling = i.falling;
          },
        )
      ]
