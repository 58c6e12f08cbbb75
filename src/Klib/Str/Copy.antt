-- ===== src/Klib/Str/Copy.antt =====
-- strlen, strcpy and strcat on well-formed strings.
use ic_competition.Base.{
  ℕ, zero, suc, ◌+◌, ◌^◌, ◌≤◌, ◌<◌, ◌≡◌, ◌≢◌, ◌∙◌, ap, ◌⊎◌, inl, subst, Option, some, List, ◌∷◌,
  ◌++◌, arith, length, length-append,
}
use ic_competition.Klib.Memory.{Mem, write, IsStr, nul, char, IsStr-frame}
use ic_competition.Klib.Str.{strlen_loop, strlen, strcpy_loop, strcpy, strcat_walk, strcat}

strlen_loop_lem :
    (k len : ℕ) {m : Mem} {s : ℕ} {cs : List ℕ}
    → IsStr m s cs
    → length cs < k
    → len + length cs < 2 ^ 32
    → strlen_loop m k s len ≡ some (len + length cs)
unfolding strlen_loop
strlen_loop_lem zero len v fuel fits = absurd (omega arith)
strlen_loop_lem (suc k) len (nul e) fuel fits = ground arith
strlen_loop_lem (suc k) len (char e ne r) fuel fits = ground (arith, strlen_loop_lem k (len + 1) r)

-- `strlen` of a string shorter than 2 ^ 32 is its number of characters, with more fuel than that.
pub strlen-length :
    {m : Mem} {s : ℕ} {cs : List ℕ} (fuel : ℕ)
    → IsStr m s cs
    → length cs < fuel
    → length cs < 2 ^ 32
    → strlen fuel m s ≡ some (length cs)
unfolding strlen
strlen-length fuel v enough fits =
    strlen_loop_lem fuel 0 v enough (omega arith) ∙ ap some (omega arith)

-- `g` is `m` but for the `n` characters from `d` on and the NUL behind them.
abbrev pub SameOutside : ℕ → ℕ → Mem → Mem → Type 0
SameOutside d n m g = (a : ℕ) → (a < d) ⊎ (d + n < a) → g a ≡ m a

-- What a copy of the string `cs` to `d` promises of its result.
pub record Copied (m : Mem) (d : ℕ) (cs : List ℕ) (r : Option Mem) : Type 0 where
  pub memory : Mem
  pub returns : r ≡ some memory
  pub string : IsStr memory d cs
  pub outside : SameOutside d (length cs) m memory

-- The copy of one character, and then of the rest.
Copied-step :
    (k : ℕ) {m : Mem} (s : ℕ) {c : ℕ} {cs : List ℕ} (d : ℕ)
    → m s ≡ c
    → c ≢ 0
    → Copied (write m d (m s)) (d + 1) cs (strcpy_loop k (write m d (m s)) (d + 1) (s + 1))
    → Copied m d (c ∷ cs) (strcpy_loop (suc k) m d s)
unfolding strcpy_loop
Copied-step k s d e ne rest = record {
  memory = rest.memory;
  returns = ground (arith, rest.returns);
  string = char (ground (arith, rest.outside d)) ne rest.string;
  outside = λ a o. ground (arith, rest.outside a);
}

strcpy_loop-Copied :
    (k : ℕ) {m : Mem} {s : ℕ} {cs : List ℕ} (d : ℕ)
    → IsStr m s cs
    → length cs < k
    → (d ≤ s) ⊎ (s + length cs < d)
    → Copied m d cs (strcpy_loop k m d s)
unfolding strcpy_loop
strcpy_loop-Copied zero d v fuel apart = absurd (omega arith)
strcpy_loop-Copied (suc k) {m} {s} d (nul e) fuel apart = record {
  memory = write m d (m s);
  returns = ground arith;
  string = nul (ground arith);
  outside = λ a o. ground arith;
}
strcpy_loop-Copied (suc k) {m} {s} d (char e ne r) fuel apart = Copied-step k s d e ne (
    strcpy_loop-Copied k (d + 1) (IsStr-frame _ r (λ a lo hi. ground arith)) (omega arith)
      (omega arith))

-- `strcpy` writes the string at `src`, its NUL included, to `dst`, and nothing else, where `dst`
-- does not lie inside or directly behind the source string's characters.
pub strcpy-Copied :
    (fuel : ℕ) {m : Mem} {src : ℕ} {cs : List ℕ} (dst : ℕ)
    → IsStr m src cs
    → length cs < fuel
    → (dst ≤ src) ⊎ (src + length cs < dst)
    → Copied m dst cs (strcpy fuel m dst src)
unfolding strcpy
strcpy-Copied fuel dst v enough apart = strcpy_loop-Copied fuel dst v enough apart

strcat_walk_lem :
    (k : ℕ) {m : Mem} {d : ℕ} {cs : List ℕ}
    → IsStr m d cs
    → length cs < k
    → strcat_walk m k d ≡ some (d + length cs)
unfolding strcat_walk
strcat_walk_lem zero v fuel = absurd (omega arith)
strcat_walk_lem (suc k) (nul e) fuel = ground arith
strcat_walk_lem (suc k) (char e ne r) fuel = ground (arith, strcat_walk_lem k r)

-- A string whose NUL is where another string starts, in a memory that keeps the first one's bytes.
IsStr-append :
    {m : Mem} {d : ℕ} {xs ys : List ℕ} (g : Mem)
    → IsStr m d xs
    → ((a : ℕ) → a < d + length xs → g a ≡ m a)
    → IsStr g (d + length xs) ys
    → IsStr g d (xs ++ ys)
IsStr-append {ys} g (nul {s} e) same t = subst (λ p. IsStr g p ys) (omega arith) t
IsStr-append {ys} g (char {s} {cs} e ne r) same t =
    char (ground (arith, same s)) ne
      (IsStr-append g r (λ a h. same a (omega arith)) (subst (λ p. IsStr g p ys) (omega arith) t))

Copied-behind :
    {m : Mem} {d : ℕ} {xs ys : List ℕ} {r : Option Mem}
    → IsStr m d xs
    → Copied m (d + length xs) ys r
    → Copied m d (xs ++ ys) r
Copied-behind {xs} {ys} v rest = record {
  memory = rest.memory;
  returns = rest.returns;
  string = IsStr-append rest.memory v (λ a h. rest.outside a (inl h)) rest.string;
  outside = λ a o. rest.outside a (omega (arith, length-append xs ys));
}

-- `strcat` leaves at `dst` the characters of `dst` and then those of `src`, and changes nothing
-- else, where the end of `dst` does not lie inside or directly behind the source's characters.
pub strcat-Copied :
    (fuel : ℕ) {m : Mem} {dst src : ℕ} {xs ys : List ℕ}
    → IsStr m dst xs
    → IsStr m src ys
    → length xs < fuel
    → length ys < fuel
    → (dst + length xs ≤ src) ⊎ (src + length ys < dst + length xs)
    → Copied m dst (xs ++ ys) (strcat fuel m dst src)
unfolding strcat
strcat-Copied fuel {m} {dst} {src} {xs} {ys} v w enough enough' apart =
    rw (strcat, strcat_walk_lem fuel v enough)
      (Copied-behind v (strcpy_loop-Copied fuel (dst + length xs) w enough' apart))
