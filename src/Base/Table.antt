-- ===== src/Base/Table.antt =====
-- A Boolean property of bytes is settled by running it on each of the first `n` numbers.
use Prim.Native.Nat.{ℕ, zero, suc, ◌<◌}
use mathlib.Core.Path.{◌≡◌}
use mathlib.Core.Bool.{Bool, true, false}
use native.Mathlib.Omega.{arith}
use ic_competition.Base.Tests.{if◌then◌else◌}

module _ (test : ℕ → Bool) where
  unfoldable pub tabulate : ℕ → Bool
  tabulate zero = true
  tabulate (suc last) = let earlier = tabulate last in if test last then earlier else false

  pub tabulate_at : (i n : ℕ) → i < n → tabulate n ≡ true → test i ≡ true
  unfolding tabulate
  tabulate_at i zero below checked = absurd (omega arith)
  tabulate_at i (suc last) below checked = ground (arith, tabulate_at i last)
