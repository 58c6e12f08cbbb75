-- ===== src/Kernels/ThreadOs.antt =====
-- The scheduler of thread-os.c. A `Task *` is the task's place in the array `tasks`, a NULL is
-- `none`; a Context is its address.
pub mod Ring
pub mod Assigned
pub mod Fair
pub mod Main
use ic_competition.Base.{
  ℕ, zero, suc, ◌+◌, ◌%◌, ◌==◌, if◌then◌else◌, Bool, List, [], ◌∷◌, Option, none, some,
}

pub record Task : Type 0 where
  pub name : List ℕ
  pub next : Option ℕ
  pub entry : ℕ
  pub context : ℕ

pub record Os : Type 0 where
  pub currents : ℕ → Option ℕ
  pub tasks : ℕ → Task

abbrev pub set_current : ℕ → ℕ → Os → Os
set_current cpu t s = record s { currents = λ c. if c == cpu then some t else s.currents c }

abbrev pub set_task : ℕ → Task → Os → Os
set_task t task s = record s { tasks = λ u. if u == t then task else s.tasks u }

-- `if (!current) current = &tasks[0]; else current->context = ctx;`, with the task that is current
-- then.
unfoldable pub save_context : Option ℕ → ℕ → ℕ → Os → ℕ × Os
save_context none cpu ctx s = (0, set_current cpu 0 s)
save_context (some t) cpu ctx s = (t, set_task t (record (s.tasks t) { context = ctx }) s)

-- The do-while loop, from the task `t`; `none` when the fuel is used up or a `next` is NULL.
unfoldable pub next_task : ℕ → ℕ → ℕ → (ℕ → Task) → ℕ → Option ℕ
next_task zero count cpu tasks t = none
next_task (suc fuel) count cpu tasks t = elim ((tasks t).next) [
  | none ↦ none
  | some after ↦
      let rest = next_task fuel count cpu tasks after in
      if after % count == cpu then some after else rest
]

-- The context of the task that the loop ended on, and the state with it as the current one.
unfoldable pub resume : Option ℕ → ℕ → Os → Option (ℕ × Os)
resume none cpu s = none
resume (some t) cpu s = some ((s.tasks t).context, set_current cpu t s)

-- The handler on the CPU `cpu` of `count`: the context that is resumed, and the new state.
unfoldable pub on_interrupt : ℕ → ℕ → ℕ → ℕ → Os → Option (ℕ × Os)
on_interrupt fuel count cpu ctx s =
    let start = save_context (s.currents cpu) cpu ctx s in
    resume (next_task fuel count cpu start.1.tasks start.0) cpu start.1

-- The loop of main over the tasks; `kcontext i` is the context made on the stack of task `i`.
unfoldable pub main_loop : ℕ → ℕ → ℕ → (ℕ → ℕ) → Os → Os
main_loop zero i n kcontext s = s
main_loop (suc r) i n kcontext s =
    let task = record (s.tasks i) { context = kcontext i; next = some ((i + 1) % n) } in
    main_loop r (i + 1) n kcontext (set_task i task s)
