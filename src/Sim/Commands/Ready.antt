-- ===== src/Sim/Commands/Ready.antt =====
-- The state in which the debugger waits for the next line.
use ic_competition.Base.{
  ℕ, suc, ◌+◌, ◌-◌, ◌^◌, ◌≤◌, ◌≡◌, subst, inl, inr, Bool, true, false, Option, some, List, [], ◌∷◌,
  Option-cases, arith, length,
}
use ic_competition.Difftest.{Reference}
use ic_competition.Sdb.Outcome.{Outcome}
use ic_competition.Sim.Circuit.{State, Config}
use ic_competition.Sim.Exec.{cpu_exec}
use ic_competition.Sim.Commands.{
  Printed, Done, goes, leaves, fails, executed, printed, run_line, carry_on, session, sdb_mainloop,
}
use ic_competition.Sim.Commands.Keeps.{Ready, Keeps, Ready-less, executed-Keeps, run_line-Keeps}

module _ (n : ℕ) {c r : Type 0} (cfg : Config c) (reference : Reference r)
    (expr : State c r → List ℕ → Outcome) (atoi : List ℕ → ℕ) where
  carry_on-Keeps :
      (m : ℕ) (k : State c r → Option (State c r × List Printed)) (d : Done (State c r))
      → n ≤ m
      → ((s : State c r) → Ready m s → Keeps n (printed (k s)))
      → Keeps m d
      → Keeps n (printed (carry_on cfg reference expr atoi k d))
  unfolding carry_on
  carry_on-Keeps m k (goes s out) le ih i = elim (Option-cases (k s)) [
    | inl none_there ↦ rw (none_there, carry_on) tt
    | inr got ↦ rw (got.1, carry_on) (subst (λ x. Keeps n (printed x)) got.1 (ih s i))
  ]
  carry_on-Keeps m k (leaves s) le ih i = Ready-less m n s le i
  carry_on-Keeps m k fails le ih i = tt

  session-Keeps :
      (lines : List (List ℕ)) (s : State c r)
      → Ready (length lines + n) s
      → Keeps n (printed (session cfg reference expr atoi lines s))
  unfolding session
  session-Keeps [] s i = Ready-less (length {A = List ℕ} [] + n) n s (omega arith) i
  session-Keeps (line ∷ lines) s i =
      let m = length lines + n in
      let more : Ready (suc m) s =
        Ready-less (length (line ∷ lines) + n) (suc m) s (omega arith) i in
      carry_on-Keeps m (session cfg reference expr atoi lines)
        (run_line cfg reference expr atoi line s) (omega arith) (session-Keeps lines)
        (run_line-Keeps m cfg reference expr atoi line s more)

  mainloop-Keeps :
      (batch : Bool) (lines : List (List ℕ)) (s : State c r)
      → Ready (length lines + n) s
      → Keeps n (printed (sdb_mainloop cfg reference expr atoi batch lines s))
  unfolding sdb_mainloop
  mainloop-Keeps true lines s i =
      let less = Ready-less (length lines + n) n s (omega arith) i in
      let run = executed-Keeps n cfg reference expr atoi (2 ^ 64 - 1) s less in
      elim (Option-cases (cpu_exec cfg reference expr (2 ^ 64 - 1) s)) [
        | inl panics ↦ rw (panics, sdb_mainloop) tt
        | inr got ↦ rw (got.1, sdb_mainloop) (subst (λ x. Keeps n (executed x)) got.1 run)
      ]
  mainloop-Keeps false lines s i = session-Keeps lines s i

  -- From a state in which nothing runs, with a pool of watchpoints in which every node is set or free
  -- and numbers fall along the list, none so high that it could overflow an `int` within as many
  -- additions as there are lines and `n` more, and the ring's pointer in the ring: a session that
  -- returns, whatever its lines, in batch mode or not, leaves such a state, with room for `n` more,
  -- however its lines set and delete watchpoints and execute instructions.
  pub sdb_mainloop-Ready :
      (batch : Bool) (lines : List (List ℕ)) (s t : State c r) (out : List Printed)
      → Ready (length lines + n) s
      → sdb_mainloop cfg reference expr atoi batch lines s ≡ some (t, out)
      → Ready n t
  sdb_mainloop-Ready batch lines s t out i e =
      subst (λ x. Keeps n (printed x)) e (mainloop-Keeps batch lines s i)
