-- ===== src/Sim/Ftrace/Log.antt =====
-- The ring holds the last fifty entries.
use ic_competition.Base.{
  ℕ, zero, suc, ◌+◌, ◌-◌, ◌<◌, ◌≡◌, ◌≢◌, refl, sym, ap, ◌∙◌, subst, inl, inr, ◌==◌, ltb,
  if◌then◌else◌, true, false, Option, none, some, List, [], ◌∷◌, arith, Option-cases,
}
use mathlib.Core.Option.{some-injective}
use ic_competition.Sim.Ftrace.{
  is_blank, Entry, Ring, fringbuf_push, print_loop, Ftrace, ftrace_print,
}

-- The entry `i` of a log, the newest first.
abbrev pub entry_at : List Entry → ℕ → Option Entry
entry_at [] i = none
entry_at (e ∷ h) zero = some e
entry_at (e ∷ h) (suc i) = entry_at h i

abbrev pub keep : Option Entry → List Entry → List Entry
keep none l = l
keep (some e) l = e ∷ l

-- The last `n` entries of a log, the oldest first.
unfoldable pub newest : ℕ → List Entry → List Entry
newest zero h = []
newest (suc n) h = keep (entry_at h n) (newest n h)

-- The place of the entry `i`, the newest first.
abbrev pub place : ℕ → ℕ → ℕ
place ptr i = if ltb i ptr then ptr - 1 - i else ptr + 49 - i

-- A place holds an entry of the log, or was never written.
abbrev pub Holds : Entry → Option Entry → Type 0
Holds e none = is_blank e.message ≡ true
Holds e (some x) = e ≡ x

pub record IsLog (r : Ring) (h : List Entry) : Type 0 where
  pub in_ring : r.ptr < 50
  pub holds : (i : ℕ) → i < 50 → Holds (r.buf (place r.ptr i)) (entry_at h i)
  pub shown : (i : ℕ) (e : Entry) → entry_at h i ≡ some e → is_blank e.message ≡ false

abbrev real : ℕ → ℕ → ℕ
real ptr i = if ltb (ptr + i) 50 then ptr + i else ptr + i - 50

real-place : (ptr i n : ℕ) → ptr < 50 → i + suc n ≡ 50 → real ptr i ≡ place ptr n
real-place ptr i n h e = ground arith

-- After a push the newest entry is at the old pointer, and the others keep their places.
place-pushed :
    (ptr i : ℕ)
    → ptr < 50
    → suc i < 50
    → (place (if ltb (ptr + 1) 50 then ptr + 1 else 0) (suc i) ≡ place ptr i) × (place ptr i ≢ ptr)
place-pushed ptr i h k = (ground arith, ground arith)

place-first : (ptr : ℕ) → ptr < 50 → place (if ltb (ptr + 1) 50 then ptr + 1 else 0) 0 ≡ ptr
place-first ptr h = ground arith

==-same : (a : ℕ) → (a == a) ≡ true
==-same a = ground arith

==-not : (a b : ℕ) → a ≢ b → (a == b) ≡ false
==-not a b ne = ground arith

push-Holds :
    (e : Entry) (r : Ring) (h : List Entry) (log : IsLog r h) (i : ℕ)
    → i < 50
    → Holds ((fringbuf_push e r).buf (place (fringbuf_push e r).ptr i)) (entry_at (e ∷ h) i)
unfolding fringbuf_push
push-Holds e r h log zero k = rw (place-first r.ptr log.in_ring, ==-same r.ptr) refl
push-Holds e r h log (suc i) k =
    let at = place-pushed r.ptr i log.in_ring k in
    rw (at.0, ==-not (place r.ptr i) r.ptr at.1) (log.holds i (omega arith))

push-shown :
    (e : Entry) (r : Ring) (h : List Entry)
    → is_blank e.message ≡ false
    → IsLog r h
    → (i : ℕ) (x : Entry) → entry_at (e ∷ h) i ≡ some x
    → is_blank x.message ≡ false
push-shown e r h full log zero x same =
    ap (λ (y : Entry). is_blank y.message) (sym (some-injective e x same)) ∙ full
push-shown e r h full log (suc i) x same = log.shown i x same

pub fringbuf_push-IsLog :
    (e : Entry) (r : Ring) (h : List Entry)
    → is_blank e.message ≡ false
    → IsLog r h
    → IsLog (fringbuf_push e r) (e ∷ h)
unfolding fringbuf_push
fringbuf_push-IsLog e r h full log = record {
  in_ring = let old = log.in_ring in ground arith;
  holds = push-Holds e r h log;
  shown = push-shown e r h full log;
}

kept_entry :
    (h : List Entry) (n : ℕ) (e : Entry) (l : List Entry)
    → Holds e (entry_at h n)
    → ((x : Entry) → entry_at h n ≡ some x → is_blank x.message ≡ false)
    → (if is_blank e.message then l else e ∷ l) ≡ keep (entry_at h n) l
kept_entry h n e l at full = elim (Option-cases (entry_at h n)) [
  | inl none_there ↦
      let blank_there = subst (Holds e) none_there at in rw (none_there, blank_there) refl
  | inr got ↦
      let same : e ≡ got.0 = subst (Holds e) got.1 at in rw (got.1, same, full got.0 got.1) refl
]

print_loop-newest :
    (n i : ℕ) (r : Ring) (h : List Entry) → i + n ≡ 50 → IsLog r h → print_loop n i r ≡ newest n h
unfolding print_loop newest
print_loop-newest zero i r h e log = refl
print_loop-newest (suc n) i r h e log =
    let rest = print_loop-newest n (i + 1) r h (omega arith) log in
    let at = real-place r.ptr i n log.in_ring e in
    let one =
      kept_entry h n (r.buf (place r.ptr n)) (newest n h) (log.holds n (omega arith))
        (log.shown n) in
    rw (rest, at) one

pub ftrace_print-newest :
    (f : Ftrace) (h : List Entry) → IsLog f.ring h → ftrace_print f ≡ newest 50 h
unfolding ftrace_print
ftrace_print-newest f h log = print_loop-newest 50 0 f.ring h (omega arith) log
