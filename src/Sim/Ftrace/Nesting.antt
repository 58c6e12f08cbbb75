-- ===== src/Sim/Ftrace/Nesting.antt =====
-- The trace of a run: a log of its calls and returns, indented by how deep they are nested.
use ic_competition.Base.{
  ℕ, suc, ◌+◌, ◌-◌, ◌%◌, ◌^◌, ◌<◌, ◌≤◌, ◌≡◌, refl, sym, ap, ◌∙◌, subst, inl, inr, ◌==◌, false, List,
  [], ◌∷◌, arith, Bool-cases, length,
}
use ic_competition.Sim.Ftrace.{
  Kind, other, call, ret, Func, Message, blank, unknown, call_of, ret_from, is_blank, Entry, Ftrace,
  Decode, Jump, no_jump, to_unknown, calls, returns, crash, jump_of, Recorded, recorded, panicked,
  crashed, push, record_jump, ftrace_rcd, ftrace_print,
}
use ic_competition.Sim.Ftrace.Log.{IsLog, newest, fringbuf_push-IsLog, ftrace_print-newest}
use ic_competition.Sim.Ftrace.History.{
  opened_by, opened, Placed, aside, opens, closes, Nested, empty, more, countdown, countdown-next,
  length-countdown, Seen, mark, seen, Tells, seen-Tells, marks, tail,
}

pub record Traced (f : Ftrace) (h : List Entry) : Type 0 where
  pub log : IsLog f.ring h
  pub nested : Nested h
  pub depth : opened h ≡ countdown f.depth

-- An instruction keeps the log, with what it adds.
pub record Goes (f g : Ftrace) (h : List Entry) (l : List Seen) : Type 0 where
  pub history : List Entry
  pub traced : Traced g history
  pub same : marks history ≡ l
  pub funcs : g.funcs ≡ f.funcs
  pub deeper : g.depth ≤ f.depth + 1

recorded-injective : (f g : Ftrace) → recorded f ≡ recorded g → f ≡ g
recorded-injective f g e = cc

push-Goes :
    (pc : ℕ) (k : Kind) (m : Message) (num depth : ℕ) (f : Ftrace) (h : List Entry)
    → Traced f h
    → is_blank m ≡ false
    → Placed k num (opened h)
    → opened_by k num (opened h) ≡ countdown depth
    → depth ≤ f.depth + 1
    → Goes f (record (push pc k m num f) { depth = depth }) h ((pc, k, m) ∷ marks h)
push-Goes pc k m num depth f h t full placed deep deeper =
    let e : Entry = record { num = num; pc = pc; message = m; kind = k } in
    record {
      history = e ∷ h;
      traced = record {
        log = fringbuf_push-IsLog e f.ring h full t.log;
        nested = more e h placed t.nested;
        depth = deep;
      };
      same = refl;
      funcs = refl;
      deeper = deeper;
    }

-- As many open calls as the depth counts.
depth-length : (f : Ftrace) (h : List Entry) → Traced f h → f.depth ≡ length (opened h)
depth-length f h t = length-countdown f.depth ∙ ap length (sym t.depth)

Goes-to :
    (f : Ftrace) {g g' : Ftrace} (h : List Entry) (l : List Seen)
    → recorded g ≡ recorded g'
    → Goes f g h l
    → Goes f g' h l
Goes-to f {g} {g'} h l e goes = subst (λ x. Goes f x h l) (recorded-injective g g' e) goes

return-Goes :
    (pc : ℕ) (name : List ℕ) (n : ℕ) (f : Ftrace) (h : List Entry)
    → Traced f h
    → f.depth ≡ suc n
    → Goes f
        (record (push pc ret (ret_from name) n f) { depth = n })
        h
        (mark pc (returns name) (marks h))
return-Goes pc name n f h t e =
    let open_ : opened h ≡ n ∷ countdown n = t.depth ∙ ap countdown e in
    push-Goes pc ret (ret_from name) n n f h t refl
      (subst (Placed ret n) (sym open_) (closes (countdown n))) (ap tail open_) (omega arith)

record_jump-Goes :
    (pc : ℕ) (j : Jump) (f g : Ftrace) (h : List Entry)
    → Traced f h
    → f.depth + 1 < 2 ^ 31
    → record_jump pc j f ≡ recorded g
    → Goes f g h (mark pc j (marks h))
unfolding record_jump
record_jump-Goes pc no_jump f g h t low e =
    Goes-to f h (marks h) e
      (record { history = h; traced = t; same = refl; funcs = refl; deeper = omega arith })
record_jump-Goes pc to_unknown f g h t low e = Goes-to f h ((pc, other, unknown) ∷ marks h) e (
    push-Goes pc other unknown f.depth f.depth f h t refl (aside (opened h) (depth-length f h t))
      t.depth (omega arith))
record_jump-Goes pc (calls name addr) f g h t low e =
    let fits : (f.depth + 1) % 2 ^ 32 ≡ f.depth + 1 = omega arith in
    let plain : recorded
          (record (push pc call (call_of name addr) f.depth f) { depth = f.depth + 1 })
        ≡ recorded g =
      ap (λ n. recorded (record (push pc call (call_of name addr) f.depth f) { depth = n }))
        (sym fits)
      ∙ e in
    Goes-to f h ((pc, call, call_of name addr) ∷ marks h) plain (
      push-Goes pc call (call_of name addr) f.depth (f.depth + 1) f h t refl
        (opens (opened h) (depth-length f h t))
        (ap (λ (o : List ℕ). f.depth ∷ o) t.depth ∙ countdown-next f.depth) (omega arith))
record_jump-Goes pc (returns name) f g h t low e = elim (Bool-cases (f.depth == 0)) [
  | inl none_open ↦ let stops : panicked ≡ recorded g = sym (rw none_open refl) ∙ e in cc
  | inr deep ↦
      let one : f.depth ≡ suc (f.depth - 1) = ground arith in
      let goes = return-Goes pc name (f.depth - 1) f h t one in
      Goes-to f h ((pc, ret, ret_from name) ∷ marks h) (sym (rw deep refl) ∙ e) goes
]
record_jump-Goes pc crash f g h t low e = cc

ftrace_rcd-Goes :
    (d : Decode) (f g : Ftrace) (h : List Entry)
    → Traced f h
    → f.depth + 1 < 2 ^ 31
    → ftrace_rcd d f ≡ recorded g
    → Goes f g h (mark d.pc (jump_of f.funcs d) (marks h))
unfolding ftrace_rcd
ftrace_rcd-Goes d f g h t low e = record_jump-Goes d.pc (jump_of f.funcs d) f g h t low e

-- The instructions of a run, recorded one after another.
abbrev pub and_then : Recorded → (Ftrace → Recorded) → Recorded
and_then (recorded f) k = k f
and_then panicked k = panicked
and_then crashed k = crashed

abbrev pub record_run : List Decode → Ftrace → Recorded
record_run [] f = recorded f
record_run (d ∷ ds) f = and_then (ftrace_rcd d f) (record_run ds)

Recorded-cases :
    (x : Recorded) (k : Ftrace → Recorded) (g : Ftrace)
    → and_then x k ≡ recorded g
    → (f : Ftrace) × (x ≡ recorded f)
Recorded-cases (recorded f) k g e = (f, refl)
Recorded-cases panicked k g e = cc
Recorded-cases crashed k g e = cc

record_run-Goes :
    (ds : List Decode) (f g : Ftrace) (h : List Entry)
    → Traced f h
    → f.depth + length ds < 2 ^ 31
    → record_run ds f ≡ recorded g
    → (after : List Entry) × (marks after ≡ seen f.funcs ds (marks h))
      × Nested after
      × (opened after ≡ countdown g.depth)
      × (ftrace_print g ≡ newest 50 after)
record_run-Goes [] f g h t low e =
    let same = recorded-injective f g e in
    (
      h,
      refl,
      t.nested,
      t.depth ∙ ap (λ x. countdown x.depth) same,
      ap ftrace_print (sym same) ∙ ftrace_print-newest f h t.log,
    )
record_run-Goes (d ∷ ds) f g h t low e =
    let got = Recorded-cases (ftrace_rcd d f) (record_run ds) g e in
    let one = ftrace_rcd-Goes d f got.0 h t (omega arith) got.1 in
    let deeper = one.deeper in
    let rest =
      record_run-Goes ds got.0 g one.history one.traced (omega arith)
        (sym (ap (λ x. and_then x (record_run ds)) got.1) ∙ e) in
    let seen_there : marks rest.0 ≡ seen f.funcs ds (mark d.pc (jump_of f.funcs d) (marks h)) =
      rest.1 ∙ (λ i. seen (one.funcs i) ds (one.same i)) in
    (rest.0, seen_there, rest.2, rest.3, rest.4)

-- The trace before the first instruction: the zeroed ring, and no call.
abbrev pub fresh : List Func → Ftrace
fresh funcs = record {
  funcs = funcs;
  ring = record { buf = λ i. record { num = 0; pc = 0; message = blank; kind = other }; ptr = 0 };
  depth = 0;
}

fresh-Traced : (funcs : List Func) → Traced (fresh funcs) []
fresh-Traced funcs = record {
  log = record { in_ring = omega arith; holds = λ i h. refl; shown = λ i e same. cc };
  nested = empty;
  depth = refl;
}

-- For a run of fewer than 2^31 instructions from the zeroed ring whose every instruction is
-- recorded, there is a history, the newest entry first, such that: its entries have, in the order
-- of the run, the PCs of the jumps that are calls, returns or unknown and messages with the names
-- of the functions called and returned from; every return stands at the indentation of the
-- innermost call that has not returned, and every other entry at as many spaces as there are such
-- calls; the depth counts these calls, which stand at 0, 1, 2 and so on; and ftrace_print() prints
-- the fifty newest entries of the history, the oldest of them first.
pub ftrace_print-record_run :
    (funcs : List Func) (ds : List Decode) (g : Ftrace)
    → length ds < 2 ^ 31
    → record_run ds (fresh funcs) ≡ recorded g
    → (history : List Entry) × Tells funcs ds [] (marks history)
      × Nested history
      × (opened history ≡ countdown g.depth)
      × (ftrace_print g ≡ newest 50 history)
ftrace_print-record_run funcs ds g short e =
    let run = record_run-Goes ds (fresh funcs) g [] (fresh-Traced funcs) (omega arith) e in
    let told = subst (λ l. Tells funcs ds [] l) (sym run.1) (seen-Tells funcs ds []) in
    (run.0, told, run.2, run.3, run.4)
