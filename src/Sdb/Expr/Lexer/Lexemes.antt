-- ===== src/Sdb/Expr/Lexer/Lexemes.antt =====
-- The texts that expr.c reads as tokens, and the tokens that they give.
use ic_competition.Base.{
  ℕ, ◌%◌, ◌^◌, ◌==◌, ◌<◌, ◌≡◌, Bool, false, some, List, [], ◌∷◌, ◌++◌, length, replicate,
}
use ic_competition.Klib.Stdlib.{is_digit}
use ic_competition.Sdb.Expr.Token.{Token, num, eq, neq, and}
use ic_competition.Sdb.Expr.Grammar.{symbol}
use ic_competition.Sdb.Expr.Lexer.{Host}
use ic_competition.Sdb.Expr.Lexer.Patterns.{is_blank, is_hex, is_solid, starts_with, AllIn}

abbrev pub is_x : ℕ → Bool
is_x c = c == b'x'

pub data Sign : Type 0 where
  plus minus star slash open_ close equal differ conj : Sign

-- Spaces, a sign, a decimal or hexadecimal number, or a register.
pub data Lexeme : Type 0 where
  blank : ℕ → Lexeme
  sign : Sign → Lexeme
  dec : List ℕ → Lexeme
  hex : List ℕ → Lexeme
  register : List ℕ → ℕ → Lexeme

abbrev pub sign_text : Sign → List ℕ
sign_text plus = b'+' ∷ []
sign_text minus = b'-' ∷ []
sign_text star = b'*' ∷ []
sign_text slash = b'/' ∷ []
sign_text open_ = b'(' ∷ []
sign_text close = b')' ∷ []
sign_text equal = b'=' ∷ b'=' ∷ []
sign_text differ = b'!' ∷ b'=' ∷ []
sign_text conj = b'&' ∷ b'&' ∷ []

abbrev pub sign_kind : Sign → ℕ
sign_kind plus = b'+'
sign_kind minus = b'-'
sign_kind star = b'*'
sign_kind slash = b'/'
sign_kind open_ = b'('
sign_kind close = b')'
sign_kind equal = eq
sign_kind differ = neq
sign_kind conj = and

-- `blank n` is one space and `n` more.
abbrev pub lexeme_text : Lexeme → List ℕ
lexeme_text (blank n) = b' ' ∷ replicate n b' '
lexeme_text (sign s) = sign_text s
lexeme_text (dec s) = s
lexeme_text (hex s) = b'0' ∷ b'x' ∷ s
lexeme_text (register s v) = b'$' ∷ s

abbrev pub text : List Lexeme → List ℕ
text [] = []
text (l ∷ ls) = lexeme_text l ++ text ls

abbrev pub number_token : List ℕ → Token
number_token s = record { kind = num; str = s }

module _ (host : Host) where
  -- A hexadecimal number and a register become the decimal numeral of their value.
  abbrev pub lexeme_tokens : Lexeme → List Token
  lexeme_tokens (blank n) = []
  lexeme_tokens (sign s) = symbol (sign_kind s) ∷ []
  lexeme_tokens (dec s) = number_token s ∷ []
  lexeme_tokens (hex s) =
      number_token (host.sprintf_u (host.strtoul16 (b'0' ∷ b'x' ∷ s) % 2 ^ 32)) ∷ []
  lexeme_tokens (register s v) = number_token (host.sprintf_u v) ∷ []

  abbrev pub text_tokens : List Lexeme → List Token
  text_tokens [] = []
  text_tokens (l ∷ ls) = lexeme_tokens l ++ text_tokens ls

  -- The characters of a lexeme are of its class, it is no longer than 31, and a register is known.
  abbrev pub IsLexeme : Lexeme → Type 0
  IsLexeme (blank n) = n < 31
  IsLexeme (sign s) = Unit {0}
  IsLexeme (dec s) = (0 < length s) × (length s < 32) × AllIn is_digit s
  IsLexeme (hex s) = (0 < length s) × (length s < 30) × AllIn is_hex s
  IsLexeme (register s v) =
      (0 < length s) × (length s < 31) × AllIn is_solid s × (host.reg_str2val s ≡ some v)

  -- The text behind a lexeme does not prolong it.
  abbrev pub Ends : Lexeme → List ℕ → Type 0
  Ends (blank n) e = starts_with is_blank e ≡ false
  Ends (sign s) e = Unit {0}
  Ends (dec s) e = (starts_with is_digit e ≡ false) × (starts_with is_x e ≡ false)
  Ends (hex s) e = starts_with is_hex e ≡ false
  Ends (register s v) e = starts_with is_solid e ≡ false

  abbrev pub IsText : List Lexeme → Type 0
  IsText [] = Unit {0}
  IsText (l ∷ ls) = IsLexeme l × Ends l (text ls) × IsText ls
