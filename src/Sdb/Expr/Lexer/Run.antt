-- ===== src/Sdb/Expr/Lexer/Run.antt =====
-- make_token on a text: the token array holds the tokens of its lexemes.
use ic_competition.Base.{
  ℕ, zero, suc, ◌+◌, ◌%◌, ◌^◌, ◌<◌, ◌≤◌, ◌≡◌, ◌≢◌, refl, ap, ◌∙◌, false, some, List, [], ◌∷◌, ◌++◌,
  arith, ltb, length, length-append, take, drop, ==-refl, length-replicate,
}
use ic_competition.Sdb.Expr.Token.{Token, Tokens, num, put, set_kind}
use ic_competition.Sdb.Expr.Grammar.{Holds, symbol}
use ic_competition.Sdb.Expr.Grammar.Scan.{Holds-append, Holds-frame}
use ic_competition.Sdb.Expr.Lexer.{
  Host, first_match, rules, record_token, make_token_loop, make_token, Lexed, lexed,
}
use ic_competition.Sdb.Expr.Lexer.Patterns.{posix_match}
use ic_competition.Sdb.Expr.Lexer.Step.{first_match-lexeme, rule_kind}
use ic_competition.Sdb.Expr.Lexer.Lexemes.{
  Lexeme, blank, sign, dec, hex, register, Sign, plus, minus, star, slash, open_, close, equal,
  differ, conj, sign_text, sign_kind, number_token, lexeme_text, lexeme_tokens, text, text_tokens,
  IsLexeme, Ends, IsText,
}

take-append : (s e : List ℕ) → take (length s) (s ++ e) ≡ s
take-append [] e = refl
take-append (x ∷ s) e = ap (◌∷◌ x) (take-append s e)

drop-append : (s e : List ℕ) → drop (length s) (s ++ e) ≡ e
drop-append [] e = refl
drop-append (x ∷ s) e = drop-append s e

-- The array after the tokens `xs` have been recorded from `n` on, `t` being what it held before.
record Recorded (t : Tokens) (n : ℕ) (xs : List Token) (r : Lexed) : Type 0 where
  array : Tokens
  returns : r ≡ lexed array (n + length xs)
  holds : Holds array n xs
  before : (j : ℕ) → j < n → array j ≡ t j

Recorded-none : (t : Tokens) (n : ℕ) → Recorded t n [] (lexed t n)
Recorded-none t n = record {
  array = t;
  returns = ap (lexed t) (omega arith);
  holds = tt;
  before = λ j h. refl;
}

-- One token, whose string matters only for a number.
Recorded-one :
    (t : Tokens) (n : ℕ) (x y : Token)
    → y.kind ≡ x.kind
    → (x.kind ≡ num → y.str ≡ x.str)
    → Recorded t n (x ∷ []) (lexed (put t n y) (n + 1))
Recorded-one t n x y e e' =
    let here : put t n y n ≡ y = rw (==-refl n) in
    record {
      array = put t n y;
      returns = refl;
      holds = (rw here e, (λ k. rw here (e' k)), tt);
      before = λ j h. ground arith;
    }

module _ (host : Host) where
  record_sign :
      (s : Sign) (t : Tokens) (n : ℕ) (w : List ℕ)
      → record_token host t n (sign_kind s) w ≡ lexed (set_kind t n (sign_kind s)) (n + 1)
  unfolding record_token
  record_sign plus t n w = refl
  record_sign minus t n w = refl
  record_sign star t n w = refl
  record_sign slash t n w = refl
  record_sign open_ t n w = refl
  record_sign close t n w = refl
  record_sign equal t n w = refl
  record_sign differ t n w = refl
  record_sign conj t n w = refl

  sign_kind_ne : (s : Sign) → sign_kind s ≢ num
  sign_kind_ne plus = omega arith
  sign_kind_ne minus = omega arith
  sign_kind_ne star = omega arith
  sign_kind_ne slash = omega arith
  sign_kind_ne open_ = omega arith
  sign_kind_ne close = omega arith
  sign_kind_ne equal = omega arith
  sign_kind_ne differ = omega arith
  sign_kind_ne conj = omega arith

  record_token-Recorded :
      (t : Tokens) (n : ℕ) (l : Lexeme)
      → IsLexeme host l
      → Recorded t n (lexeme_tokens host l) (record_token host t n (rule_kind l) (lexeme_text l))
  unfolding record_token
  record_token-Recorded t n (blank k) h = Recorded-none t n
  record_token-Recorded t n (sign s) h =
      rw (record_sign s t n (sign_text s))
        (Recorded-one t n (symbol (sign_kind s)) _ refl (λ e. absurd (sign_kind_ne s e)))
  record_token-Recorded t n (dec s) h = Recorded-one t n (number_token s) _ refl (λ e. refl)
  record_token-Recorded t n (hex s) h =
      Recorded-one t n (number_token (host.sprintf_u (host.strtoul16 (b'0' ∷ b'x' ∷ s) % 2 ^ 32))) _
        refl (λ e. refl)
  record_token-Recorded t n (register s v) h =
      rw h.3 (Recorded-one t n (number_token (host.sprintf_u v)) _ refl (λ e. refl))

lexeme_text_lengths :
    (host : Host) (l : Lexeme)
    → IsLexeme host l
    → (0 < length (lexeme_text l)) × (length (lexeme_text l) < 32)
lexeme_text_lengths host (blank n) h =
    (omega arith, omega (arith, h, length-replicate {A = ℕ} n 32))
lexeme_text_lengths host (sign plus) h = (omega arith, omega arith)
lexeme_text_lengths host (sign minus) h = (omega arith, omega arith)
lexeme_text_lengths host (sign star) h = (omega arith, omega arith)
lexeme_text_lengths host (sign slash) h = (omega arith, omega arith)
lexeme_text_lengths host (sign open_) h = (omega arith, omega arith)
lexeme_text_lengths host (sign close) h = (omega arith, omega arith)
lexeme_text_lengths host (sign equal) h = (omega arith, omega arith)
lexeme_text_lengths host (sign differ) h = (omega arith, omega arith)
lexeme_text_lengths host (sign conj) h = (omega arith, omega arith)
lexeme_text_lengths host (dec s) h = (h.0, h.1)
lexeme_text_lengths host (hex s) h = (omega arith, omega (arith, h.1))
lexeme_text_lengths host (register s v) h = (omega arith, omega (arith, h.1))

-- A text with a lexeme in front is not empty.
nonempty : (s e : List ℕ) → 0 < length s → (c : ℕ) × (w : List ℕ) × (s ++ e ≡ c ∷ w)
nonempty [] e h = absurd (omega arith)
nonempty (c ∷ s) e h = (c, s ++ e, refl)

-- One round on a text that is not empty.
round :
    (host : Host) (fuel : ℕ) (t : Tokens) (n c : ℕ) (w : List ℕ) {k len n' : ℕ} {t' : Tokens}
    → first_match host 0 rules (c ∷ w) ≡ some (k, len)
    → ltb 31 len ≡ false
    → record_token host t n k (take len (c ∷ w)) ≡ lexed t' n'
    → ltb 65536 n' ≡ false
    → make_token_loop host (suc fuel) t n (c ∷ w)
      ≡ make_token_loop host fuel t' n' (drop len (c ∷ w))
unfolding make_token_loop
round host fuel t n c w found short recorded room =
    rw (found, make_token_loop) (rw short (rw (recorded, room)))

module _ (host : Host) (posix : (i : ℕ) (e : List ℕ) → host.regexec i e ≡ posix_match i e) where
  make_token_loop-step :
      (fuel : ℕ) (t : Tokens) (n : ℕ) (l : Lexeme) (e : List ℕ)
      → IsLexeme host l
      → Ends host l e
      → n + length (lexeme_tokens host l) ≤ 65536
      → (r : Recorded t n
          (lexeme_tokens host l)
          (record_token host t n (rule_kind l) (lexeme_text l)))
      → make_token_loop host (suc fuel) t n (lexeme_text l ++ e)
        ≡ make_token_loop host fuel r.array (n + length (lexeme_tokens host l)) e
  make_token_loop-step fuel t n l e h ends fits r =
      let room : ltb 65536 (n + length (lexeme_tokens host l)) ≡ false = ground arith in
      let s = lexeme_text l in
      let lengths = lexeme_text_lengths host l h in
      let (c, w, split) = nonempty s e lengths.0 in
      let short : ltb 31 (length s) ≡ false = ground (arith, lengths.1) in
      let found : first_match host 0 rules (c ∷ w) ≡ some (rule_kind l, length s) =
        rw (← split) (first_match-lexeme host posix l e h ends) in
      let taken : take (length s) (c ∷ w) ≡ s = rw (← split) (take-append s e) in
      let left : drop (length s) (c ∷ w) ≡ e = rw (← split) (drop-append s e) in
      ap (make_token_loop host (suc fuel) t n) split
      ∙ round host fuel t n c w {n' = n + length (lexeme_tokens host l)} {t' = r.array} found short
          (rw taken r.returns) room
      ∙ rw left

  make_token_loop-Recorded :
      (fuel : ℕ) (t : Tokens) (n : ℕ) (ls : List Lexeme)
      → IsText host ls
      → length (text ls) < fuel
      → n + length (text_tokens host ls) ≤ 65536
      → Recorded t n (text_tokens host ls) (make_token_loop host fuel t n (text ls))
  make_token_loop-Recorded zero t n ls h enough fits = absurd (omega arith)
  make_token_loop-Recorded (suc fuel) t n [] h enough fits =
      unfold make_token_loop in Recorded-none t n
  make_token_loop-Recorded (suc fuel) t n (l ∷ ls) h enough fits =
      let split = length-append (lexeme_tokens host l) (text_tokens host ls) in
      let first = record_token-Recorded host t n l h.0 in
      let m = n + length (lexeme_tokens host l) in
      let rest =
        make_token_loop-Recorded fuel first.array m ls h.2
          (omega
            (arith, length-append (lexeme_text l) (text ls), (lexeme_text_lengths host l h.0).0))
          (omega (arith, split)) in
      rw (make_token_loop-step fuel t n l (text ls) h.0 h.1 (omega (arith, split)) first) (record {
        array = rest.array;
        returns =
            rest.returns
            ∙ ap (lexed rest.array)
                (omega (arith, length-append (lexeme_tokens host l) (text_tokens host ls)));
        holds =
            Holds-append rest.array n (lexeme_tokens host l) (text_tokens host ls)
              (Holds-frame first.array rest.array n _ (λ j lo lt. rest.before j lt) first.holds)
              rest.holds;
        before = λ j lt. rest.before j (omega arith) ∙ first.before j lt;
      })

-- Where regexec finds the leftmost longest match, `make_token` accepts a text of lexemes that do
-- not run into one another and have at most 65536 tokens, and then the token array holds their
-- tokens, in order and without the spaces.
pub make_token-text :
    (host : Host) (t : Tokens) (ls : List Lexeme)
    → ((i : ℕ) (e : List ℕ) → host.regexec i e ≡ posix_match i e)
    → IsText host ls
    → length (text_tokens host ls) ≤ 65536
    → (t' : Tokens) × (make_token host t (text ls) ≡ lexed t' (length (text_tokens host ls)))
      × Holds t' 0 (text_tokens host ls)
unfolding make_token
make_token-text host t ls posix h fits =
    let r =
      make_token_loop-Recorded host posix (length (text ls) + 1) t 0 ls h (omega arith)
        (omega arith) in
    (r.array, r.returns ∙ ap (lexed r.array) (omega arith), r.holds)
