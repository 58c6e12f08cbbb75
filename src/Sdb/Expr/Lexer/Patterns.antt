-- ===== src/Sdb/Expr/Lexer/Patterns.antt =====
-- The regular expressions of `rules[]` in expr.c: each is a literal text, behind which may stand one
-- character class, repeated at least once.
use ic_competition.Base.{
  ℕ, suc, ◌+◌, ◌≡◌, refl, ap, Bool, true, false, not, ◌&&◌, ◌||◌, Option, none, some, List, [], ◌∷◌,
  ◌++◌, ◌==◌, leb, if◌then◌else◌, length, get_or,
}
use ic_competition.Klib.Stdlib.{is_digit}

pub data Pattern : Type 0 where
  literal : List ℕ → Pattern
  repeated : List ℕ → (ℕ → Bool) → Pattern

abbrev pub is_blank : ℕ → Bool
is_blank c = c == b' '

abbrev pub is_hex : ℕ → Bool
is_hex c = is_digit c || (leb b'A' c && leb c b'F') || (leb b'a' c && leb c b'f')

-- `\S`: no white space
abbrev pub is_solid : ℕ → Bool
is_solid c = not (c == b' ' || (leb 9 c && leb c 13))

abbrev pub patterns : List Pattern
patterns =
    repeated [] is_blank
    ∷ literal (b'+' ∷ [])
    ∷ literal (b'-' ∷ [])
    ∷ literal (b'*' ∷ [])
    ∷ literal (b'/' ∷ [])
    ∷ repeated (b'0' ∷ b'x' ∷ []) is_hex
    ∷ repeated [] is_digit
    ∷ literal (b'(' ∷ [])
    ∷ literal (b')' ∷ [])
    ∷ literal (b'=' ∷ b'=' ∷ [])
    ∷ literal (b'!' ∷ b'=' ∷ [])
    ∷ literal (b'&' ∷ b'&' ∷ [])
    ∷ repeated (b'$' ∷ []) is_solid
    ∷ []

-- What is left of a text behind a literal at its start.
abbrev pub strip : List ℕ → List ℕ → Option (List ℕ)
strip [] e = some e
strip (c ∷ cs) [] = none
strip (c ∷ cs) (x ∷ e) = let rest = strip cs e in if x == c then rest else none

-- The length of the longest start of a text in a class.
unfoldable pub span : (ℕ → Bool) → List ℕ → ℕ
span class [] = 0
span class (x ∷ e) = let rest = span class e in if class x then suc rest else 0

-- The length of the longest match at the start of a text.
abbrev pub match_length : Pattern → List ℕ → Option ℕ
match_length (literal cs) e = elim (strip cs e) [ none ↦ none | some r ↦ some (length cs) ]
match_length (repeated cs class) e = elim (strip cs e) [
  | none ↦ none
  | some r ↦ if span class r == 0 then none else some (length cs + span class r)
]

-- The leftmost longest match of the `i`th rule, where it stands at the start of the text.
abbrev pub posix_match : ℕ → List ℕ → Option ℕ
posix_match i e = match_length (get_or patterns i (literal [])) e

abbrev pub starts_with : (ℕ → Bool) → List ℕ → Bool
starts_with class [] = false
starts_with class (x ∷ e) = class x

abbrev pub AllIn : (ℕ → Bool) → List ℕ → Type 0
AllIn class [] = Unit {0}
AllIn class (x ∷ e) = (class x ≡ true) × AllIn class e

pub span-append :
    (class : ℕ → Bool) (s e : List ℕ)
    → AllIn class s
    → starts_with class e ≡ false
    → span class (s ++ e) ≡ length s
unfolding span
span-append class [] [] h out = refl
span-append class [] (x ∷ e) h out = rw out
span-append class (x ∷ s) e h out = rw h.0 (ap suc (span-append class s e h.1 out))
