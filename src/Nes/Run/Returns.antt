-- ===== src/Nes/Run/Returns.antt =====
-- When the loop of cpu_run ends.
use ic_competition.Base.{
  ℕ, zero, suc, ◌+◌, ◌-◌, ◌/◌, ◌%◌, ◌^◌, ◌≤◌, ◌<◌, ◌≡◌, ◌≢◌, refl, ap, ◌∙◌, Bool, true, ◌&&◌,
  Option, none, some, List, [], ◌∷◌, arith, ◌==◌, ltb, if◌then◌else◌, Bool-cases, Option-cases, inl,
  inr, sym, ◌*◌,
}
use ic_competition.Nes.State.{Nes}
use ic_competition.Nes.Memory.{memory_readb}
use ic_competition.Nes.Ppu.{ppuio_read}
use ic_competition.Nes.Table.{op_table, find_row}
use ic_competition.Nes.Table.Kinds.{Row, row}
use ic_competition.Nes.Run.{cycles_of, cpu_step, cpu_loop, cpu_run}

-- The row of the op code at PC.
abbrev pub fetched : Nes → Option Row
fetched s = find_row (memory_readb s.cpu.pc s).0 op_table

-- The machine after `n` rounds.
unfoldable pub after : ℕ → Nes → Nes
after zero s = s
after (suc n) s = after n (cpu_step s).1

-- The cycles that `n` rounds take.
unfoldable pub spent : ℕ → Nes → ℕ
spent zero s = 0
spent (suc n) s = (cpu_step s).0 + spent n (cpu_step s).1

-- Every row takes a cycle at least.
abbrev all_cost : List Row → Bool
all_cost [] = true
all_cost (row c n o m ∷ rows) = ltb 0 n && all_cost rows

find_row-cost :
    (code : ℕ) (rows : List Row)
    → all_cost rows ≡ true
    → find_row code rows ≢ none
    → 0 < cycles_of (find_row code rows)
unfolding find_row
find_row-cost code [] h some_row = absurd (some_row refl)
find_row-cost code (row c n o m ∷ rows) h some_row = elim (Bool-cases (c == code)) [
  | inl same ↦ rw same (ground arith)
  | inr other ↦ rw other (find_row-cost code rows (ground arith) (rw other at some_row))
]

cpu_step-cost : (s : Nes) → fetched s ≢ none → 0 < (cpu_step s).0
unfolding cpu_step
cpu_step-cost s known = omega (arith, find_row-cost (memory_readb s.cpu.pc s).0 op_table refl known)

memory_readb-cpu : (address : ℕ) (s : Nes) → (memory_readb address s).1.cpu ≡ s.cpu
unfolding memory_readb
memory_readb-cpu address s = elim (Bool-cases (address / 0x2000 == 0)) [
  | inl e ↦ rw e refl
  | inr ne ↦ elim (Bool-cases (address / 0x2000 == 1)) [
    | inl e' ↦ rw (ne, e') refl
    | inr ne' ↦ elim (Bool-cases (address / 0x2000 == 2)) [
      | inl e'' ↦ rw (ne, ne', e'') refl
      | inr ne'' ↦ elim (Bool-cases (address / 0x2000 == 3)) [
        | inl e3 ↦ rw (ne, ne', ne'', e3) refl
        | inr ne3 ↦ rw (ne, ne', ne'', ne3) refl
      ]
    ]
  ]
]

-- How far PC is from 0x2000, where a read gives 0xFF.
abbrev distance : ℕ → ℕ
distance pc = if ltb pc 65536 then (0x2000 + 65536 - pc) % 65536 else 65536

distance_le : (pc : ℕ) → distance pc ≤ 65536
distance_le pc = ground arith

fetch_at_2000 : (s : Nes) → (memory_readb 0x2000 s).0 ≡ 0xFF
unfolding memory_readb ppuio_read
fetch_at_2000 s = refl

row_at_ff : find_row 0xFF op_table ≢ none
unfolding find_row
row_at_ff e = ground arith

known_at_2000 : (s : Nes) → fetched s ≡ none → s.cpu.pc ≢ 0x2000
known_at_2000 s unknown e = row_at_ff (
    sym (ap (λ b. find_row b op_table) (ap (λ a. (memory_readb a s).0) e ∙ fetch_at_2000 s))
    ∙ unknown)

-- An op code without a row moves PC one byte on, towards 0x2000.
cpu_step-distance :
    (s : Nes) → fetched s ≡ none → distance (cpu_step s).1.cpu.pc < distance s.cpu.pc
unfolding cpu_step
cpu_step-distance s unknown =
    let ne = known_at_2000 s unknown in
    let e : (cpu_step s).1.cpu.pc ≡ (s.cpu.pc + 1) % 2 ^ 16 =
      rw unknown (ap (λ c. (c.pc + 1) % 2 ^ 16) (memory_readb-cpu s.cpu.pc s)) in
    rw e (ground arith)

-- What `cpu_loop` returns, for a count of cycles: the machine after the least number of rounds that
-- take as many.
pub record Ran (cycles : ℕ) (s : Nes) (r : Option Nes) : Type 0 where
  pub rounds : ℕ
  pub returns : r ≡ some (after rounds s)
  pub enough : cycles ≤ spent rounds s
  pub least : (m : ℕ) → m < rounds → spent m s < cycles

Ran-suc :
    (fuel cycles : ℕ) (s : Nes)
    → Ran
        (suc cycles - (cpu_step s).0)
        (cpu_step s).1
        (cpu_loop fuel (suc cycles - (cpu_step s).0) (cpu_step s).1)
    → Ran (suc cycles) s (cpu_loop (suc fuel) (suc cycles) s)
unfolding cpu_loop after spent
Ran-suc fuel cycles s r = record {
  rounds = suc r.rounds;
  returns = r.returns;
  enough = omega (arith, r.enough);
  least = before;
}
  where
    before : (m : ℕ) → m < suc r.rounds → spent m s < suc cycles
    before zero h = omega arith
    before (suc m) h = omega (arith, r.least m (omega arith))

cpu_loop-Ran :
    (fuel cycles : ℕ) (s : Nes)
    → cycles * 65537 + distance s.cpu.pc < fuel
    → Ran cycles s (cpu_loop fuel cycles s)
cpu_loop-Ran zero cycles s fits = absurd (omega arith)
cpu_loop-Ran (suc fuel) zero s fits = record {
  rounds = 0;
  returns = unfold cpu_loop after in refl;
  enough = omega arith;
  least = λ m h. absurd (omega arith);
}
cpu_loop-Ran (suc fuel) (suc cycles) s fits = Ran-suc fuel cycles s (
    cpu_loop-Ran fuel (suc cycles - (cpu_step s).0) (cpu_step s).1
      (elim (Option-cases (fetched s)) [
        | inl unknown ↦ omega (arith, cpu_step-distance s unknown)
        | inr (r, known) ↦
            let cost : 0 < (cpu_step s).0 = cpu_step-cost s (λ e. ground arith) in
            omega (arith, distance_le (cpu_step s).1.cpu.pc)
      ]))

-- From every state, and with more fuel than 65537 rounds for each cycle that is to be taken and
-- 65536 besides, `cpu_run` returns, whatever the memory holds: the machine is the one after the
-- least number of rounds that take a third of the given cycles. Op codes without a row take none,
-- but PC then moves on, and a read at 0x2000 gives 0xFF, which has a row.
pub cpu_run-Ran :
    (fuel cycles : ℕ) (s : Nes)
    → cycles / 3 * 65537 + 65536 < fuel
    → Ran (cycles / 3) s (cpu_run fuel cycles s)
unfolding cpu_run
cpu_run-Ran fuel cycles s fits =
    cpu_loop-Ran fuel (cycles / 3) s (omega (arith, distance_le s.cpu.pc))
