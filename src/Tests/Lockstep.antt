-- ===== src/Tests/Lockstep.antt =====
-- Runs of the difference test against a reference that only counts.
use ic_competition.Base.{ℕ, ◌+◌, refl, true, false, none, none}
use ic_competition.Difftest.{Regs, Reference, Test, difftest_step, Compared, difftest_step-Compared}

abbrev counter : Reference Regs
counter = record { exec_one = λ q. record q { pc = q.pc + 4 }; to_dut = λ q. q; to_ref = λ x q. x }

abbrev zeros : ℕ → ℕ
zeros i = 0

abbrev test : Test Regs
test = record {
  is_skip_ref = false;
  is_skip_ref_r = false;
  n_ignore_first = true;
  cpu = record { gpr = zeros; pc = 0x80000000 };
  ref = record { gpr = zeros; pc = 0x80000000 };
  aborted = none;
}

difftest_step-Compared_example :
    Compared counter (λ i. 1) 0x80000004 test (difftest_step counter (λ i. 1) 0x80000004 test)
difftest_step-Compared_example = difftest_step-Compared counter (λ i. 1) 0x80000004 test refl refl
