-- ===== src/Sim/Ftrace.antt =====
-- The function trace of core/csrc/monitor/sdb/ftrace.cpp. A node of the pool is its place in the
-- list, the last function first; the text of a message is given by what sprintf() puts into it.
pub mod History
pub mod Jumps
pub mod Log
pub mod Nesting
use ic_competition.Base.{
  ℕ, zero, suc, ◌+◌, ◌-◌, ◌/◌, ◌%◌, ◌^◌, ◌==◌, ltb, leb, if◌then◌else◌, Bool, true, false, not,
  ◌&&◌, Option, none, some, List, [], ◌∷◌, bit_and,
}

-- TYPE_OTHER, TYPE_CALL, TYPE_RET
pub data Kind : Type 0 where
  other call ret : Kind

pub record Func : Type 0 where
  pub name : List ℕ
  pub addr : ℕ
  pub size : ℕ

-- The zeroed message, "call/ret [???]", "call [%s@0x%08x]" and "ret [%s]".
pub data Message : Type 0 where
  blank : Message
  unknown : Message
  call_of : List ℕ → ℕ → Message
  ret_from : List ℕ → Message

abbrev pub is_blank : Message → Bool
is_blank blank = true
is_blank _ = false

-- `struct fbuf`: the indentation, the PC, the message and the type.
pub record Entry : Type 0 where
  pub num : ℕ
  pub pc : ℕ
  pub message : Message
  pub kind : Kind

pub record Ring : Type 0 where
  pub buf : ℕ → Entry
  pub ptr : ℕ

-- The pool of functions, the ring and `stack_ptr`, an `int` as its 32-bit pattern.
pub record Ftrace : Type 0 where
  pub funcs : List Func
  pub ring : Ring
  pub depth : ℕ

pub record Decode : Type 0 where
  pub pc : ℕ
  pub dnpc : ℕ
  pub inst : ℕ

abbrev pub new_fp : Func → Ftrace → Ftrace
new_fp fn f = record f { funcs = fn ∷ f.funcs }

-- The first function of the pool that `pc` lies in, with its place from `i` on.
unfoldable pub pc_compare : ℕ → ℕ → List Func → Option (ℕ × Func)
pc_compare pc i [] = none
pc_compare pc i (fn ∷ fns) =
    let rest = pc_compare pc (i + 1) fns in
    if leb fn.addr pc && ltb pc ((fn.addr + fn.size) % 2 ^ 32) then some (i, fn) else rest

unfoldable pub pc_compare_off : ℕ → List Func → Bool
pc_compare_off pc [] = false
pc_compare_off pc (fn ∷ fns) =
    let rest = pc_compare_off pc fns in if pc == fn.addr then true else rest

-- `fringbuf[fringbuf_ptr] = …; if (++fringbuf_ptr >= FRING_SIZE) fringbuf_ptr = 0;`
unfoldable pub fringbuf_push : Entry → Ring → Ring
fringbuf_push e r = record {
  buf = λ j. if j == r.ptr then e else r.buf j;
  ptr = if ltb (r.ptr + 1) 50 then r.ptr + 1 else 0;
}

-- What ftrace_print() prints, with the rounds left first.
unfoldable pub print_loop : ℕ → ℕ → Ring → List Entry
print_loop zero i r = []
print_loop (suc n) i r =
    let rest = print_loop n (i + 1) r in
    let e = r.buf (if ltb (r.ptr + i) 50 then r.ptr + i else r.ptr + i - 50) in
    if is_blank e.message then rest else e ∷ rest

unfoldable pub ftrace_print : Ftrace → List Entry
ftrace_print f = print_loop 50 0 f.ring

-- What an instruction is to the trace. `crash` is a read through NULL, where the instruction returns
-- from no function of the pool.
pub data Jump : Type 0 where
  no_jump : Jump
  to_unknown : Jump
  calls : List ℕ → ℕ → Jump
  returns : List ℕ → Jump
  crash : Jump

abbrev pub rd : ℕ → ℕ
rd inst = inst / 128 % 32

-- `ret` where the instruction is a jalr without a link, to the middle of another function.
unfoldable pub return_jump : ℕ → ℕ → ℕ × Func → Option (ℕ × Func) → Jump
return_jump inst dnpc next none =
    if bit_and inst 127 == 103 && rd inst == 0 && not (next.1.addr == dnpc) then crash else no_jump
return_jump inst dnpc next (some current) =
    if bit_and inst 127 == 103
      && rd inst == 0
      && not (next.1.addr == dnpc)
      && not (next.0 == current.0)
    then returns current.1.name
    else no_jump

unfoldable pub jump_to : List Func → Decode → Option (ℕ × Func) → Jump
unfolding return_jump
jump_to funcs d none = to_unknown
jump_to funcs d (some next) =
    if not (rd d.inst == 0) && pc_compare_off d.dnpc funcs
    then calls next.1.name next.1.addr
    else return_jump d.inst d.dnpc next (pc_compare d.pc 0 funcs)

unfoldable pub jump_of : List Func → Decode → Jump
jump_of [] d = no_jump
jump_of (fn ∷ fns) d =
    if bit_and d.inst 119 == 103
    then jump_to (fn ∷ fns) d (pc_compare d.dnpc 0 (fn ∷ fns))
    else no_jump

pub data Recorded : Type 0 where
  recorded : Ftrace → Recorded
  panicked crashed : Recorded

abbrev pub push : ℕ → Kind → Message → ℕ → Ftrace → Ftrace
push pc k m num f = record f {
  ring = fringbuf_push (record { num = num; pc = pc; message = m; kind = k }) f.ring;
}

unfoldable pub record_jump : ℕ → Jump → Ftrace → Recorded
record_jump pc no_jump f = recorded f
record_jump pc to_unknown f = recorded (push pc other unknown f.depth f)
record_jump pc (calls name addr) f =
    recorded
      (record (push pc call (call_of name addr) f.depth f) { depth = (f.depth + 1) % 2 ^ 32 })
record_jump pc (returns name) f =
    if f.depth == 0
    then panicked
    else recorded (record (push pc ret (ret_from name) (f.depth - 1) f) { depth = f.depth - 1 })
record_jump pc crash f = crashed

unfoldable pub ftrace_rcd : Decode → Ftrace → Recorded
ftrace_rcd d f = record_jump d.pc (jump_of f.funcs d) f
