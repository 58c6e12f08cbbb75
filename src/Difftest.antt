-- ===== src/Difftest.antt =====
-- The difference test of core/csrc/cpu/difftest/dut.c. The reference is a shared object: its state
-- and what it does are the section's parameters. `update_reg_state(pc)` of reg.cpp copies the
-- registers of the circuit, which are an argument here.
use ic_competition.Base.{
  ℕ, zero, suc, ◌<◌, ◌≡◌, ◌↔◌, ◌⊎◌, inl, inr, refl, Bool, true, false, ◌&&◌, Option, some, arith,
  ◌==◌, if◌then◌else◌, Bool-cases,
}

-- CPU_state
pub record Regs : Type 0 where
  pub gpr : ℕ → ℕ
  pub pc : ℕ

-- `ref_difftest_exec(1)` and `ref_difftest_regcpy` in both directions.
pub record Reference {ℓ} (r : Type ℓ) : Type ℓ where
  pub exec_one : r → r
  pub to_dut : r → Regs
  pub to_ref : Regs → r → r

-- The static variables, `cpu`, the reference, and `halt_pc` once `state` is NPC_ABORT.
pub record Test {ℓ} (r : Type ℓ) : Type ℓ where
  pub is_skip_ref : Bool
  pub is_skip_ref_r : Bool
  pub n_ignore_first : Bool
  pub cpu : Regs
  pub ref : r
  pub aborted : Option ℕ

-- `for (int i = 0; i < 32; i++)`: whether the first `n` registers are the same
unfoldable pub regs_match : ℕ → Regs → Regs → Bool
regs_match zero ref cpu = true
regs_match (suc n) ref cpu = regs_match n ref cpu && (ref.gpr n == cpu.gpr n)

unfoldable pub difftest_checkregs : Regs → Regs → ℕ → Bool
difftest_checkregs ref cpu pc = regs_match 32 ref cpu && (ref.pc == pc)

true-false : {b : Bool} → b ≡ true → b ≡ false → ⊥
true-false t f = ground arith

regs_match_sound :
    (n : ℕ) (ref cpu : Regs) (i : ℕ) → regs_match n ref cpu ≡ true → i < n → ref.gpr i ≡ cpu.gpr i
unfolding regs_match
regs_match_sound zero ref cpu i h lt = absurd (omega arith)
regs_match_sound (suc n) ref cpu i h lt = ground (arith, regs_match_sound n ref cpu i)

regs_match_complete :
    (n : ℕ) (ref cpu : Regs)
    → ((i : ℕ) → i < n → ref.gpr i ≡ cpu.gpr i)
    → regs_match n ref cpu ≡ true
unfolding regs_match
regs_match_complete zero ref cpu h = refl
regs_match_complete (suc n) ref cpu h =
    ground (arith, regs_match_complete n ref cpu (λ i lt. h i (omega arith)), h n (omega arith))

-- The reference's registers agree with the recorded ones, and its PC with the given one.
abbrev pub AgreesWith : Regs → Regs → ℕ → Type 0
AgreesWith ref cpu pc = ((i : ℕ) → i < 32 → ref.gpr i ≡ cpu.gpr i) × (ref.pc ≡ pc)

checkregs_iff :
    (ref cpu : Regs) (pc : ℕ) → (difftest_checkregs ref cpu pc ≡ true) ↔ AgreesWith ref cpu pc
unfolding difftest_checkregs
checkregs_iff ref cpu pc = (
  λ h. (λ i lt. regs_match_sound 32 ref cpu i (ground (arith, h)) lt, ground (arith, h)),
  λ a. ground (arith, regs_match_complete 32 ref cpu a.0, a.1),
)

module _ {ℓ} {r : Type ℓ} (machine : Reference r) where
  abbrev pub difftest_skip_ref : Test r → Test r
  difftest_skip_ref t = record t { is_skip_ref = true }

  abbrev pub checkregs : Regs → ℕ → Test r → Test r
  checkregs ref pc t = if difftest_checkregs ref t.cpu pc then t else record t { aborted = some pc }

  -- `update_reg_state(pc)`
  abbrev pub update_reg_state : (ℕ → ℕ) → ℕ → Test r → Test r
  update_reg_state now pc t = record t { cpu = record { gpr = now; pc = pc } }

  abbrev skip_step : (ℕ → ℕ) → ℕ → Test r → Test r
  skip_step now pc t =
      let u = update_reg_state now pc (record t { is_skip_ref_r = true }) in
      record u { ref = machine.to_ref u.cpu u.ref; is_skip_ref = false }

  abbrev compare_step : (ℕ → ℕ) → ℕ → Test r → Test r
  compare_step now pc t =
      let u = record t { ref = machine.exec_one t.ref } in
      update_reg_state now pc (checkregs (machine.to_dut u.ref) pc u)

  unfoldable pub difftest_step : (ℕ → ℕ) → ℕ → Test r → Test r
  difftest_step now pc t =
      if t.is_skip_ref
      then skip_step now pc t
      else if t.n_ignore_first
      then compare_step now pc t
      else record (update_reg_state now pc t) { n_ignore_first = true }

  -- What a comparison makes of the test: the reference has executed one instruction, the registers of
  -- the circuit are recorded, and the test is aborted at `pc` exactly when the reference differs.
  pub record Compared (now : ℕ → ℕ) (pc : ℕ) (t t' : Test r) : Type ℓ where
    pub executed : t'.ref ≡ machine.exec_one t.ref
    pub recorded : t'.cpu ≡ record { gpr = now; pc = pc }
    pub verdict :
        (AgreesWith (machine.to_dut t'.ref) t.cpu pc × (t'.aborted ≡ t.aborted))
        ⊎ ((AgreesWith (machine.to_dut t'.ref) t.cpu pc → ⊥) × (t'.aborted ≡ some pc))

  -- A step that neither skips the reference nor is the first lets the reference execute one
  -- instruction, aborts the test at `pc` exactly when one of its 32 registers differs from the
  -- recorded one or its PC from `pc`, and then records the circuit's registers.
  pub difftest_step-Compared :
      (now : ℕ → ℕ) (pc : ℕ) (t : Test r)
      → t.is_skip_ref ≡ false
      → t.n_ignore_first ≡ true
      → Compared now pc t (difftest_step now pc t)
  unfolding difftest_step
  difftest_step-Compared now pc t skip first =
      let ref = machine.to_dut (machine.exec_one t.ref) in
      elim (Bool-cases (difftest_checkregs ref t.cpu pc)) [
        | inl good ↦
            rw (skip, first, good)
              (record {
                executed = refl;
                recorded = refl;
                verdict = inl ((checkregs_iff ref t.cpu pc).0 good, refl);
              })
        | inr bad ↦
            rw (skip, first, bad)
              (record {
                executed = refl;
                recorded = refl;
                verdict =
                    inr (λ agrees. true-false ((checkregs_iff ref t.cpu pc).1 agrees) bad, refl);
              })
      ]

  -- Where the reference holds the registers that are copied to it, a step after `difftest_skip_ref`
  -- aborts nothing, executes nothing, and leaves the reference with the circuit's registers and PC;
  -- the steps after it compare again.
  pub difftest_step-difftest_skip_ref :
      (now : ℕ → ℕ) (pc : ℕ) (t : Test r)
      → ((x : Regs) (q : r) → machine.to_dut (machine.to_ref x q) ≡ x)
      → let t' = difftest_step now pc (difftest_skip_ref t) in
        (machine.to_dut t'.ref ≡ record { gpr = now; pc = pc })
        × (t'.aborted ≡ t.aborted)
        × (t'.is_skip_ref ≡ false)
  unfolding difftest_step
  difftest_step-difftest_skip_ref now pc t copies = (copies _ _, refl, refl)
