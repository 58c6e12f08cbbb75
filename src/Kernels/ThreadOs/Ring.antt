-- ===== src/Kernels/ThreadOs/Ring.antt =====
-- The loop of on_interrupt along the ring of the tasks.
use ic_competition.Base.{
  ℕ, zero, suc, ◌+◌, ◌-◌, ◌<◌, ◌≤◌, ◌%◌, ◌≡◌, refl, ap, ◌⊎◌, inl, inr, false, ◌==◌, ltb,
  if◌then◌else◌, Option, none, some, arith, Bool-cases,
}
use native.Mathlib.Nat.{mod-le}
use ic_competition.Kernels.ThreadOs.{Task, next_task}

abbrev pub successor : ℕ → ℕ → ℕ
successor n t = if t + 1 == n then 0 else t + 1

-- Each of the `n` tasks is followed by the next one, the last by the first.
unfoldable pub IsRing : (n : ℕ) (tasks : ℕ → Task) → Type 0
IsRing n tasks = (t : ℕ) → t < n → (tasks t).next ≡ some (successor n t)

-- How many steps lead from `t` to `u` along the ring, at least one.
abbrev pub distance : ℕ → ℕ → ℕ → ℕ
distance n t u = if ltb t u then u - t else u + n - t

-- The loop found a task of the CPU, not behind `u`.
pub record IsNext (n count cpu t u : ℕ) (found : Option ℕ) : Type 0 where
  pub task : ℕ
  pub is_found : found ≡ some task
  pub bound : task < n
  pub mine : task % count ≡ cpu
  pub nearer : (task ≡ u) ⊎ (distance n task u < distance n t u)

-- One step along the ring reaches `u` or comes nearer.
successor_nearer :
    (n t u : ℕ)
    → t < n
    → u < n
    → (successor n t ≡ u) ⊎ (suc (distance n (successor n t) u) ≡ distance n t u)
successor_nearer n t u ht hu = elim (Bool-cases (successor n t == u)) [
  | inl e ↦ inl (ground arith)
  | inr ne ↦ inr (ground arith)
]

pub next_task-IsNext :
    (fuel n count cpu : ℕ) (tasks : ℕ → Task) (t u : ℕ)
    → IsRing n tasks
    → t < n
    → u < n
    → u % count ≡ cpu
    → distance n t u ≤ fuel
    → IsNext n count cpu t u (next_task fuel count cpu tasks t)
unfolding next_task IsRing
next_task-IsNext zero n count cpu tasks t u ring ht hu mine d = absurd (ground arith)
next_task-IsNext (suc fuel) n count cpu tasks t u ring ht hu mine d =
    let bound : successor n t < n = ground arith in
    let near = successor_nearer n t u ht hu in
    rw (next_task, ring t ht)
      (elim (Bool-cases (successor n t % count == cpu)) [
        | inl e ↦ rw e (record {
          task = successor n t;
          is_found = refl;
          bound = bound;
          mine = ground arith;
          nearer = elim near [ inl r ↦ inl r | inr r ↦ inr (omega arith) ];
        })
        | inr ne ↦ elim near [
          | inl r ↦ absurd (ground (arith, ap (λ x. x % count) r))
          | inr r ↦
              let rest =
                next_task-IsNext fuel n count cpu tasks (successor n t) u ring bound hu mine
                  (omega arith) in
              rw ne (record {
                task = rest.task;
                is_found = rest.is_found;
                bound = rest.bound;
                mine = rest.mine;
                nearer = elim rest.nearer [ inl q ↦ inl q | inr q ↦ inr (omega arith) ];
              })
        ]
      ])

-- On a CPU whose number is at least the number of tasks the loop ends after no number of rounds.
pub next_task_endless :
    (fuel n count cpu : ℕ) (tasks : ℕ → Task) (t : ℕ)
    → 0 < count
    → n ≤ cpu
    → t < n
    → IsRing n tasks
    → next_task fuel count cpu tasks t ≡ none
unfolding next_task IsRing
next_task_endless zero n count cpu tasks t pos le lt ring = refl
next_task_endless (suc fuel) n count cpu tasks t pos le lt ring =
    let after : successor n t < n = ground arith in
    let small = mod-le (successor n t) count in
    let other : (successor n t % count == cpu) ≡ false = ground arith in
    rw (next_task, ring t lt, other)
      (next_task_endless fuel n count cpu tasks (successor n t) pos le after ring)
