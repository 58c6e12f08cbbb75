-- ===== src/Sdb/Expr/Token.antt =====
-- The token array of expr.c. A token's type is the C integer.
use ic_competition.Base.{ℕ, Bool, ◌||◌, List, ◌==◌, if◌then◌else◌}

-- The `enum` behind the character codes.
abbrev pub notype : ℕ
notype = 256

abbrev pub num : ℕ
num = 257

abbrev pub hnum : ℕ
hnum = 258

abbrev pub eq : ℕ
eq = 259

abbrev pub neq : ℕ
neq = 260

abbrev pub and : ℕ
and = 261

abbrev pub deref : ℕ
deref = 262

abbrev pub reg : ℕ
reg = 263

abbrev pub inv : ℕ
inv = 264

pub record Token : Type 0 where
  pub kind : ℕ
  pub str : List ℕ

-- `tokens[65536]`: make_token() says `overrun` for a token behind the last place.
abbrev pub Tokens : Type 0
Tokens = ℕ → Token

abbrev pub kind_at : Tokens → ℕ → ℕ
kind_at t i = (t i).kind

abbrev pub put : Tokens → ℕ → Token → Tokens
put t i x j = if i == j then x else t j

-- `tokens[i].type = k`: the string stays.
abbrev pub set_kind : Tokens → ℕ → ℕ → Tokens
set_kind t i k = put t i (record { kind = k; str = (t i).str })

abbrev pub is_operator : ℕ → Bool
is_operator k = k == b'-' || k == b'+' || k == b'*' || k == b'/' || k == eq || k == neq || k == and

unfoldable pub op_hirc : ℕ → ℕ
op_hirc k =
    if k == inv || k == deref
    then 1
    else if k == b'*' || k == b'/'
    then 2
    else if k == b'+' || k == b'-'
    then 3
    else if k == eq || k == neq
    then 4
    else if k == and
    then 5
    else 0
