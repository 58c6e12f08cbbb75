-- ===== src/Sdb/Outcome.antt =====
-- The result of the debugger's expr(): a value, `*success == false`, or a failed assertion, which
-- ends the program.
use ic_competition.Base.{ℕ}

pub data Outcome : Type 0 where
  value : ℕ → Outcome
  failed aborted : Outcome
