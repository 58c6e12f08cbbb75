-- ===== src/Sim/Ftrace/Jumps.antt =====
-- What the instructions of a run are to the trace of core/csrc/monitor/sdb/ftrace.cpp, said without
-- the code's own tests.
use ic_competition.Base.{
  ℕ, ◌+◌, ◌/◌, ◌%◌, ◌^◌, ◌<◌, ◌≤◌, ◌≡◌, ◌≢◌, refl, sym, ◌∙◌, ◌⊎◌, inl, inr, ◌==◌, ltb, leb, not,
  ◌&&◌, true, false, Option, none, some, List, [], ◌∷◌, arith, Bool-cases, bit_and,
}
use ic_competition.Sim.Ftrace.{
  Func, Decode, Jump, no_jump, to_unknown, calls, returns, crash, rd, pc_compare, pc_compare_off,
  return_jump, jump_to, jump_of,
}

-- The address lies in the function.
abbrev pub Holds : ℕ → Func → Type 0
Holds pc fn = (fn.addr ≤ pc) × (pc < (fn.addr + fn.size) % 2 ^ 32)

-- The first function that `pc` lies in, with its place from `i` on.
pub data FirstIn (pc : ℕ) : ℕ → List Func → ℕ × Func → Type 0 where
  first : {i : ℕ} {fn : Func} {fns : List Func} → Holds pc fn → FirstIn pc i (fn ∷ fns) (i, fn)
  later :
      {i : ℕ} {fn : Func} {fns : List Func} {r : ℕ × Func}
      → (Holds pc fn → ⊥)
      → FirstIn pc (i + 1) fns r
      → FirstIn pc i (fn ∷ fns) r

abbrev pub Nowhere : ℕ → List Func → Type 0
Nowhere pc [] = Unit {0}
Nowhere pc (fn ∷ fns) = (Holds pc fn → ⊥) × Nowhere pc fns

-- Some function begins at the address.
abbrev pub Begins : ℕ → List Func → Type 0
Begins pc [] = ⊥
Begins pc (fn ∷ fns) = (pc ≡ fn.addr) ⊎ Begins pc fns

-- No `jalr` without a link to the middle of a function.
abbrev pub NoReturn : Decode → Func → Type 0
NoReturn d target = (bit_and d.inst 127 ≢ 103) ⊎ (d.inst / 128 % 32 ≢ 0) ⊎ (target.addr ≡ d.dnpc)

-- An instruction is a jump when it is a `jal` or a `jalr`. One out of every function is unknown. One
-- with a link to the beginning of a function is a call of the function it goes to. A `jalr` without a
-- link from one function to the middle of another is a return from the first; from outside all
-- functions it reads through NULL. Every other instruction, and every one without functions, is none.
pub data Reads (funcs : List Func) (d : Decode) : Jump → Type 0 where
  no_functions : funcs ≡ [] → Reads funcs d no_jump
  plain : bit_and d.inst 119 ≢ 103 → Reads funcs d no_jump
  leaves_all :
      bit_and d.inst 119 ≡ 103 → funcs ≢ [] → Nowhere d.dnpc funcs → Reads funcs d to_unknown
  called :
      {target : ℕ × Func}
      → bit_and d.inst 119 ≡ 103
      → FirstIn d.dnpc 0 funcs target
      → d.inst / 128 % 32 ≢ 0
      → Begins d.dnpc funcs
      → Reads funcs d (calls target.1.name target.1.addr)
  returned :
      {target current : ℕ × Func}
      → bit_and d.inst 127 ≡ 103
      → FirstIn d.dnpc 0 funcs target
      → FirstIn d.pc 0 funcs current
      → d.inst / 128 % 32 ≡ 0
      → target.1.addr ≢ d.dnpc
      → target.0 ≢ current.0
      → Reads funcs d (returns current.1.name)
  lost :
      {target : ℕ × Func}
      → bit_and d.inst 127 ≡ 103
      → FirstIn d.dnpc 0 funcs target
      → Nowhere d.pc funcs
      → d.inst / 128 % 32 ≡ 0
      → target.1.addr ≢ d.dnpc
      → Reads funcs d crash
  stays :
      {target : ℕ × Func}
      → FirstIn d.dnpc 0 funcs target
      → (d.inst / 128 % 32 ≡ 0) ⊎ (Begins d.dnpc funcs → ⊥)
      → NoReturn d target.1 ⊎ ((k : ℕ × Func) × FirstIn d.pc 0 funcs k × (target.0 ≡ k.0))
      → Reads funcs d no_jump

-- What pc_compare() finds.
abbrev Compared : ℕ → ℕ → List Func → Option (ℕ × Func) → Type 0
Compared pc i fns none = Nowhere pc fns
Compared pc i fns (some r) = FirstIn pc i fns r

later-Compared :
    (pc i : ℕ) (fn : Func) (fns : List Func) (x : Option (ℕ × Func))
    → (Holds pc fn → ⊥)
    → Compared pc (i + 1) fns x
    → Compared pc i (fn ∷ fns) x
later-Compared pc i fn fns none out c = (out, c)
later-Compared pc i fn fns (some r) out c = later out c

pc_compare-Compared : (pc i : ℕ) (fns : List Func) → Compared pc i fns (pc_compare pc i fns)
unfolding pc_compare
pc_compare-Compared pc i [] = tt
pc_compare-Compared pc i (fn ∷ fns) =
    elim (Bool-cases (leb fn.addr pc && ltb pc ((fn.addr + fn.size) % 2 ^ 32))) [
      | inl e ↦ rw e (first (ground arith, ground arith))
      | inr ne ↦ rw ne (
          later-Compared pc i fn fns (pc_compare pc (i + 1) fns)
            (λ h. let low = h.0 in let high = h.1 in absurd (ground arith))
            (pc_compare-Compared pc (i + 1) fns))
    ]

pc_compare_off-Begins : (pc : ℕ) (fns : List Func) → pc_compare_off pc fns ≡ true → Begins pc fns
unfolding pc_compare_off
pc_compare_off-Begins pc [] e = cc
pc_compare_off-Begins pc (fn ∷ fns) e = elim (Bool-cases (pc == fn.addr)) [
  | inl at ↦ inl (ground arith)
  | inr ne ↦ inr (pc_compare_off-Begins pc fns (sym (rw ne refl) ∙ e))
]

pc_compare_off-none : (pc : ℕ) (fns : List Func) → pc_compare_off pc fns ≡ false → Begins pc fns → ⊥
unfolding pc_compare_off
pc_compare_off-none pc [] e b = b
pc_compare_off-none pc (fn ∷ fns) e (inl at) = absurd (ground arith)
pc_compare_off-none pc (fn ∷ fns) e (inr b) = pc_compare_off-none pc fns (ground arith) b

module _ (funcs : List Func) (d : Decode) (link : bit_and d.inst 119 ≡ 103) where
  return_jump-Reads :
      (target : ℕ × Func) (x : Option (ℕ × Func))
      → FirstIn d.dnpc 0 funcs target
      → (d.inst / 128 % 32 ≡ 0) ⊎ (Begins d.dnpc funcs → ⊥)
      → Compared d.pc 0 funcs x
      → Reads funcs d (return_jump d.inst d.dnpc target x)
  unfolding return_jump
  return_jump-Reads target none at no_call c =
      elim (Bool-cases
        (bit_and d.inst 127 == 103 && rd d.inst == 0 && not (target.1.addr == d.dnpc))) [
          | inl e ↦ rw e (lost (ground arith) at c (ground arith) (ground arith))
          | inr ne ↦ rw ne (stays at no_call (inl (ground arith)))
        ]
  return_jump-Reads target (some current) at no_call c =
      elim (Bool-cases (
        bit_and d.inst 127 == 103
        && rd d.inst == 0
        && not (target.1.addr == d.dnpc)
        && not (target.0 == current.0))) [
          | inl e ↦ rw e (returned (ground arith) at c (ground arith) (ground arith) (ground arith))
          | inr ne ↦ rw ne (elim (Bool-cases (target.0 == current.0)) [
            | inl same ↦ stays at no_call (inr (current, c, ground arith))
            | inr apart ↦ stays at no_call (inl (ground arith))
          ])
        ]

  jump_to-Reads :
      (x : Option (ℕ × Func))
      → funcs ≢ []
      → Compared d.dnpc 0 funcs x
      → Reads funcs d (jump_to funcs d x)
  unfolding jump_to
  jump_to-Reads none some_there c = leaves_all link some_there c
  jump_to-Reads (some target) some_there c =
      let current = pc_compare-Compared d.pc 0 funcs in
      elim (Bool-cases (rd d.inst == 0)) [
        | inl zero_link ↦
            rw zero_link
              (return_jump-Reads target (pc_compare d.pc 0 funcs) c (inl (ground arith)) current)
        | inr links ↦ elim (Bool-cases (pc_compare_off d.dnpc funcs)) [
          | inl begins ↦
              rw (links, begins)
                (called link c (ground arith) (pc_compare_off-Begins d.dnpc funcs begins))
          | inr middle ↦
              rw (links, middle)
                (return_jump-Reads target (pc_compare d.pc 0 funcs) c
                  (inr (pc_compare_off-none d.dnpc funcs middle)) current)
        ]
      ]

pub jump_of-Reads : (funcs : List Func) (d : Decode) → Reads funcs d (jump_of funcs d)
unfolding jump_of
jump_of-Reads [] d = no_functions refl
jump_of-Reads (fn ∷ fns) d = elim (Bool-cases (bit_and d.inst 119 == 103)) [
  | inl e ↦
      let link : bit_and d.inst 119 ≡ 103 = ground arith in
      rw e (
        jump_to-Reads (fn ∷ fns) d link (pc_compare d.dnpc 0 (fn ∷ fns)) (λ none_there. cc)
          (pc_compare-Compared d.dnpc 0 (fn ∷ fns)))
  | inr ne ↦ rw ne (plain (ground arith))
]
