-- ===== src/Sim/Commands/Stepping.antt =====
-- Single-stepping by lines of the debugger.
use ic_competition.Base.{
  ℕ, ◌+◌, ◌^◌, ◌<◌, ◌≡◌, refl, sym, ap, ◌∙◌, inl, inr, true, false, Option, some, List, [], ◌∷◌,
  arith, Option-cases,
}
use ic_competition.Difftest.{Reference}
use ic_competition.Sdb.Outcome.{Outcome}
use ic_competition.Sim.Circuit.{running, stop, is_running, has_ended, State, set_npc, Config}
use ic_competition.Sim.Exec.{cpu_exec}
use ic_competition.Sim.Exec.Steps.{Steps}
use ic_competition.Sim.Exec.Resume.{cpu_exec-add}
use ic_competition.Sim.Commands.{
  cmd_si, Printed, goes, executed, extend, strtok, skip_spaces, cut_word, same_text, find_cmd,
  cmd_table, step_inst, handler, run_line, carry_on, session,
}

-- `si` with what follows it.
abbrev pub si_line : List ℕ → List ℕ
si_line args = b's' ∷ b'i' ∷ b' ' ∷ args

extend-least : (n : ℕ) → n < 2 ^ 31 → extend n ≡ n
extend-least n h = ground arith

si-found : (args : List ℕ) → strtok (si_line args) ≡ some (b's' ∷ b'i' ∷ [], args)
unfolding strtok skip_spaces cut_word
si-found args = refl

cmd_si-found : find_cmd (b's' ∷ b'i' ∷ []) cmd_table ≡ some cmd_si
unfolding find_cmd cmd_table same_text
cmd_si-found = refl

module _ {c r : Type 0} (cfg : Config c) (reference : Reference r)
    (expr : State c r → List ℕ → Outcome) (atoi : List ℕ → ℕ) where
  -- What a line `si N` does.
  run_line-si :
      (n : ℕ) (args word rest : List ℕ) (s : State c r)
      → strtok args ≡ some (word, rest)
      → atoi word ≡ n
      → n < 2 ^ 31
      → run_line cfg reference expr atoi (si_line args) s
        ≡ executed (cpu_exec cfg reference expr n s)
  unfolding run_line handler step_inst
  run_line-si n args word rest s split number small =
      let count : extend (atoi word) ≡ n = ap extend number ∙ extend-least n small in
      rw (si-found args, run_line, cmd_si-found, split, handler, step_inst)
        (ap (λ k. executed (cpu_exec cfg reference expr k s)) count)

  carry_on-goes :
      (k : State c r → Option (State c r × List Printed)) (t : State c r)
      → carry_on cfg reference expr atoi k (goes t []) ≡ k t
  unfolding carry_on
  carry_on-goes k t = elim (Option-cases (k t)) [
    | inl panics ↦ rw (panics, carry_on) refl
    | inr got ↦ rw (got.1, carry_on) refl
  ]

  -- In a simulator that has not ended and that can execute `m` instructions and still run, the
  -- lines `si m` and `si n` leave the simulator in the same state as the one line `si` with the
  -- sum, and the handlers of the lines that follow print the same, where atoi() reads the three
  -- numbers and the sum is an `int`; the lines that executed instructions print are not compared.
  pub session-si :
      (m n : ℕ) (args1 args2 args3 word1 word2 word3 rest1 rest2 rest3 : List ℕ)
      (lines : List (List ℕ)) (s t : State c r)
      → strtok args1 ≡ some (word1, rest1)
      → strtok args2 ≡ some (word2, rest2)
      → strtok args3 ≡ some (word3, rest3)
      → atoi word1 ≡ m
      → atoi word2 ≡ n
      → atoi word3 ≡ m + n
      → m + n < 2 ^ 31
      → has_ended s.npc.state ≡ false
      → Steps cfg reference expr m (set_npc running s) t
      → is_running t.npc.state ≡ true
      → session cfg reference expr atoi (si_line args1 ∷ si_line args2 ∷ lines) s
        ≡ session cfg reference expr atoi (si_line args3 ∷ lines) s
  unfolding session
  session-si m n a1 a2 a3 w1 w2 w3 r1 r2 r3 lines s t e1 e2 e3 i1 i2 i3 small going steps on =
      let both = cpu_exec-add cfg reference expr m n s t going steps on in
      let t1 = set_npc stop t in
      let first = run_line-si m a1 w1 r1 s e1 i1 (omega arith) ∙ ap executed both.0 in
      let second =
        run_line-si n a2 w2 r2 t1 e2 i2 (omega arith)
        ∙ ap executed both.1
        ∙ sym (run_line-si (m + n) a3 w3 r3 s e3 i3 small) in
      ap (carry_on cfg reference expr atoi (session cfg reference expr atoi (si_line a2 ∷ lines)))
        first
      ∙ carry_on-goes (session cfg reference expr atoi (si_line a2 ∷ lines)) t1
      ∙ ap (carry_on cfg reference expr atoi (session cfg reference expr atoi lines)) second
