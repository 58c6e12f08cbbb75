-- ===== src/Sim/Ftrace/History.antt =====
-- The history of a run: its entries, how they are nested, and what the run tells.
use ic_competition.Base.{ℕ, zero, suc, ◌+◌, ◌≡◌, refl, List, [], ◌∷◌, arith, length}
use ic_competition.Sim.Ftrace.{
  Kind, other, call, ret, Func, Message, unknown, call_of, ret_from, Entry, Decode, Jump, no_jump,
  to_unknown, calls, returns, crash, jump_of,
}
use ic_competition.Sim.Ftrace.Jumps.{Reads, jump_of-Reads}

-- The indentations of the calls that have not returned, the innermost first.
abbrev pub tail : List ℕ → List ℕ
tail [] = []
tail (x ∷ l) = l

abbrev pub opened_by : Kind → ℕ → List ℕ → List ℕ
opened_by other n o = o
opened_by call n o = n ∷ o
opened_by ret n o = tail o

abbrev pub opened : List Entry → List ℕ
opened [] = []
opened (e ∷ h) = opened_by e.kind e.num (opened h)

-- A return stands at the indentation of the innermost open call; another entry, at as many spaces as
-- there are open calls.
pub data Placed : Kind → ℕ → List ℕ → Type 0 where
  aside : {n : ℕ} (o : List ℕ) → n ≡ length o → Placed other n o
  opens : {n : ℕ} (o : List ℕ) → n ≡ length o → Placed call n o
  closes : {n : ℕ} (o : List ℕ) → Placed ret n (n ∷ o)

pub data Nested : List Entry → Type 0 where
  empty : Nested []
  more : (e : Entry) (h : List Entry) → Placed e.kind e.num (opened h) → Nested h → Nested (e ∷ h)

abbrev pub countdown : ℕ → List ℕ
countdown zero = []
countdown (suc n) = n ∷ countdown n

pub countdown-next : (n : ℕ) → n ∷ countdown n ≡ countdown (n + 1)
countdown-next n = let one : n + 1 ≡ suc n = omega arith in rw one refl

pub length-countdown : (n : ℕ) → n ≡ length (countdown n)
length-countdown zero = refl
length-countdown (suc n) = let rest = length-countdown n in omega (arith, rest)

-- What an instruction adds to the log, by its own PC.
abbrev pub Seen : Type 0
Seen = ℕ × Kind × Message

abbrev pub mark : ℕ → Jump → List Seen → List Seen
mark pc no_jump l = l
mark pc to_unknown l = (pc, other, unknown) ∷ l
mark pc (calls name addr) l = (pc, call, call_of name addr) ∷ l
mark pc (returns name) l = (pc, ret, ret_from name) ∷ l
mark pc crash l = l

abbrev pub seen : List Func → List Decode → List Seen → List Seen
seen funcs [] l = l
seen funcs (d ∷ ds) l = seen funcs ds (mark d.pc (jump_of funcs d) l)

-- A run with these instructions adds to the first log what the second has more.
pub data Tells (funcs : List Func) : List Decode → List Seen → List Seen → Type 0 where
  over : (l : List Seen) → Tells funcs [] l l
  then_ :
      {d : Decode} {ds : List Decode} {l l' : List Seen} (j : Jump)
      → Reads funcs d j
      → Tells funcs ds (mark d.pc j l) l'
      → Tells funcs (d ∷ ds) l l'

pub seen-Tells :
    (funcs : List Func) (ds : List Decode) (l : List Seen) → Tells funcs ds l (seen funcs ds l)
seen-Tells funcs [] l = over l
seen-Tells funcs (d ∷ ds) l =
    let j = jump_of funcs d in then_ j (jump_of-Reads funcs d) (seen-Tells funcs ds (mark d.pc j l))

abbrev pub marks : List Entry → List Seen
marks [] = []
marks (e ∷ h) = (e.pc, e.kind, e.message) ∷ marks h
