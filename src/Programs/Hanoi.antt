-- ===== src/Programs/Hanoi.antt =====
-- The towers of am-kernels/kernels/demo/src/hanoi/hanoi.c, without their drawing. The towers are the
-- array `t`, and the places of a tower are its `cap`.
pub mod Rules
pub mod Solved
use ic_competition.Base.{ℕ, zero, suc, ◌+◌, ◌-◌, ◌==◌, if◌then◌else◌, Bool, true, false}

pub record Tower : Type 0 where
  pub n : ℕ
  pub cap : ℕ → ℕ

abbrev pub Towers : Type 0
Towers = ℕ → Tower

abbrev pub set_tower : Towers → ℕ → Tower → Towers
set_tower t i x j = if i == j then x else t j

abbrev pub init_tower : Tower
init_tower = record { n = 0; cap = λ k. 0 }

-- `t[i].x[t[i].n++] = d;`
abbrev pub add_to : Tower → ℕ → Tower
add_to x d = record { n = x.n + 1; cap = λ k. if k == x.n then d else x.cap k }

unfoldable pub add_disk : ℕ → ℕ → Towers → Towers
add_disk i d t = set_tower t i (add_to (t i) d)

-- `int d = t[i].x[--t[i].n];`
unfoldable pub remove_disk : ℕ → Towers → ℕ × Towers
remove_disk i t = ((t i).cap ((t i).n - 1), set_tower t i (record (t i) { n = (t i).n - 1 }))

-- `add_disk(to, remove_disk(from));`
abbrev pub move_disk : ℕ → ℕ → Towers → Towers
move_disk from to t = add_disk to (remove_disk from t).0 (remove_disk from t).1

unfoldable pub move : ℕ → ℕ → ℕ → ℕ → Towers → Towers
move zero from to via t = t
move (suc n) from to via t = move n via to from (move_disk from to (move n from via to t))

-- `for (c = H; c; c--) add_disk(0, c);`
unfoldable pub add_disks : ℕ → Towers → Towers
add_disks zero t = t
add_disks (suc c) t = add_disks c (add_disk 0 (suc c) t)

unfoldable pub hanoi : Towers
hanoi = move 7 0 2 1 (add_disks 7 (λ i. init_tower))
