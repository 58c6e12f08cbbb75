-- ===== src/Klib/Stdlib/Atoi.antt =====
-- atoi reads back what `%d` of vsprintf writes.
use mathlib.Core.List.{append-nil}
use native.Mathlib.Nat.{zero-sub}
use ic_competition.Base.{
  ℕ, zero, suc, ◌+◌, ◌-◌, ◌*◌, ◌%◌, ◌^◌, ◌<◌, ◌≡◌, ◌≢◌, refl, ap, ◌∙◌, sym, some, List, [], ◌∷◌,
  ◌++◌, arith, lt→ltb, length, replicate, false, subst, inl, inr, Bool-cases,
}
use ic_competition.Klib.Memory.{Mem, IsStr, nul, char, IsStr-head, IsStr-tail}
use ic_competition.Klib.Stdlib.{atoi, atoi_spaces, atoi_digits, is_digit}
use ic_competition.Klib.Stdio.{read_width, sprintf, done, int}
use ic_competition.Klib.Stdio.Numeral.{decimal, read_width-decimal, decimal-Leads, dec}
use ic_competition.Klib.Stdio.Pieces.{sprintf-output}
use ic_competition.Klib.Stdio.Pieces

-- The digit loop computes the number that the leading digits of the string stand for, modulo 2 ^ 32.
atoi_digits_lem :
    (k x y : ℕ) {m : Mem} {s : ℕ} {cs : List ℕ}
    → IsStr m s cs
    → length cs < k
    → y ≡ x % 2 ^ 32
    → atoi_digits m k s y ≡ some ((read_width x cs).0 % 2 ^ 32)
unfolding atoi_digits read_width
atoi_digits_lem zero x y v fuel e = absurd (omega arith)
atoi_digits_lem (suc k) x y (nul z) fuel e = ground arith
atoi_digits_lem (suc k) x y (char {s} {c} {cs} z ne v) fuel e = elim (Bool-cases (is_digit c)) [
  | inl digit ↦
      rw (z, digit) (atoi_digits_lem k (x * 10 + (c - b'0')) _ v (omega arith) (ground arith))
  | inr other ↦ rw (z, other, e)
]

atoi_spaces_lem :
    (j k : ℕ) {m : Mem} {s : ℕ} {c : ℕ} {cs : List ℕ}
    → IsStr m s (replicate j b' ' ++ c ∷ cs)
    → c ≢ b' '
    → j < k
    → (p : ℕ) × (atoi_spaces m k s ≡ some p) × IsStr m p (c ∷ cs)
unfolding atoi_spaces
atoi_spaces_lem j zero v ne fuel = absurd (omega arith)
atoi_spaces_lem zero (suc k) {s} v ne fuel = (s, ground (arith, IsStr-head v), v)
atoi_spaces_lem (suc j) (suc k) v ne fuel =
    let (p, run, w) = atoi_spaces_lem j k (IsStr-tail v) ne (omega arith) in
    (p, rw (IsStr-head v) run, w)

atoi_lem :
    (fuel j : ℕ) {m : Mem} {s : ℕ} (c : ℕ) (cs : List ℕ)
    → IsStr m s (replicate j b' ' ++ c ∷ cs)
    → c ≢ b' '
    → j < fuel
    → length (c ∷ cs) < fuel
    → atoi fuel m s ≡ some ((read_width 0 (c ∷ cs)).0 % 2 ^ 32)
unfolding atoi
atoi_lem fuel j c cs v ne enough enough' =
    let (p, run, w) = atoi_spaces_lem j fuel v ne enough in
    rw (run, atoi) (atoi_digits_lem fuel 0 0 w enough' refl)

read_width-decimal_nil : (n : ℕ) → n < 2 ^ 31 → (read_width 0 (decimal n)).0 ≡ n
read_width-decimal_nil n h =
    ap (λ ds. (read_width 0 ds).0) (sym (append-nil (decimal n)))
    ∙ ap (λ r. r.0) (read_width-decimal n [] h)
    ∙ (unfold read_width in refl)

-- `atoi` skips spaces and then reads a decimal numeral of a number below 2 ^ 31 as that number.
atoi-decimal :
    (fuel j n : ℕ) {m : Mem} {s : ℕ}
    → IsStr m s (replicate j b' ' ++ decimal n)
    → n < 2 ^ 31
    → j < fuel
    → length (decimal n) < fuel
    → atoi fuel m s ≡ some n
atoi-decimal fuel j n {m} {s} v h enough enough' =
    let r = decimal-Leads n h in
    let run =
      atoi_lem fuel j (dec r.first) r.others
        (subst (λ ds. IsStr m s (replicate j b' ' ++ ds)) r.splits v) (omega (arith, r.digit))
        enough (subst (λ ds. length ds < fuel) r.splits enough') in
    run
    ∙ ap (λ ds. some ((read_width 0 ds).0 % 2 ^ 32)) (sym r.splits)
    ∙ ap some (omega (arith, read_width-decimal_nil n h))

sprintf_dec : (n : ℕ) → n < 2 ^ 31 → sprintf (b'%' ∷ b'd' ∷ []) (int n ∷ []) ≡ done (decimal n)
sprintf_dec n h =
    sprintf-output (Pieces.dec false 0 n ∷ []) ((omega arith, omega arith, omega arith), tt)
    ∙ rw (lt→ltb n (2 ^ 31) h, append-nil) (rw zero-sub)

-- What `sprintf` writes for `%d` and a number from 0 to 2 ^ 31 - 1, stored as a string behind any
-- number of spaces, `atoi` reads back as that number.
pub atoi-sprintf :
    (fuel j n : ℕ) {m : Mem} {s : ℕ} {out : List ℕ}
    → n < 2 ^ 31
    → sprintf (b'%' ∷ b'd' ∷ []) (int n ∷ []) ≡ done out
    → IsStr m s (replicate j b' ' ++ out)
    → j < fuel
    → length out < fuel
    → atoi fuel m s ≡ some n
atoi-sprintf fuel j n {m} {s} {out} h printed v enough enough' =
    atoi-decimal fuel j n (subst (λ ds. IsStr m s (replicate j b' ' ++ ds)) e v) h enough
      (subst (λ ds. length ds < fuel) e enough')
  where
    e : out ≡ decimal n
    e = cc (sprintf_dec n h)
