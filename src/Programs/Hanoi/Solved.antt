-- ===== src/Programs/Hanoi/Solved.antt =====
-- move() solves the puzzle.
use ic_competition.Base.{
  ℕ, zero, suc, ◌+◌, ◌^◌, ◌<◌, ◌≡◌, ◌≢◌, refl, sym, ap, ◌∙◌, subst, List, [], ◌∷◌, ◌++◌, arith,
  length,
}
use native.Mathlib.Numerals.{towards_suc}
use ic_competition.Programs.Hanoi.{Towers, init_tower, move_disk, move, add_disk, add_disks, hanoi}
use ic_competition.Programs.Hanoi.Rules.{
  disks, Fits, Moves, done, one, Moves-append, move_disk-Moved,
}

abbrev pub AllFit : List ℕ → List ℕ → Type 0
AllFit [] s = Unit {0}
AllFit (x ∷ l) s = Fits x s × AllFit l s

abbrev pub Below : ℕ → List ℕ → Type 0
Below x [] = Unit {0}
Below x (y ∷ l) = (x < y) × Below x l

-- From the top on the disks get larger.
abbrev pub Rising : List ℕ → Type 0
Rising [] = Unit {0}
Rising (x ∷ l) = Below x l × Rising l

-- All but the last of a list, and the last.
record Split (n : ℕ) (l : List ℕ) : Type 0 where
  init : List ℕ
  last : ℕ
  whole : l ≡ init ++ last ∷ []
  size : length init ≡ n

split : (n : ℕ) (l : List ℕ) → length l ≡ suc n → Split n l
split n [] e = absurd (omega arith)
split zero (x ∷ []) e = record { init = []; last = x; whole = refl; size = refl }
split zero (x ∷ y ∷ l) e = absurd (omega arith)
split (suc n) (x ∷ l) e =
    let r = split n l (omega arith) in
    record {
      init = x ∷ r.init;
      last = r.last;
      whole = λ i. x ∷ r.whole i;
      size = omega (arith, r.size);
    }

Below-init : (x d : ℕ) (l : List ℕ) → Below x (l ++ d ∷ []) → Below x l × (x < d)
Below-init x d [] b = (tt, b.0)
Below-init x d (y ∷ l) b = let r = Below-init x d l b.1 in ((b.0, r.0), r.1)

Rising-init : (d : ℕ) (l base : List ℕ) → Rising (l ++ d ∷ []) → Rising l × AllFit l (d ∷ base)
Rising-init d [] base r = (tt, tt)
Rising-init d (x ∷ l) base r =
    let b = Below-init x d l r.0 in
    let rest = Rising-init d l base r.1 in ((b.0, rest.0), (b.1, rest.1))

AllFit-init : (d : ℕ) (l s : List ℕ) → AllFit (l ++ d ∷ []) s → AllFit l s × Fits d s
AllFit-init d [] s a = (tt, a.0)
AllFit-init d (x ∷ l) s a = let r = AllFit-init d l s a.1 in ((a.0, r.0), r.1)

append-last : (l s : List ℕ) (d : ℕ) → (l ++ d ∷ []) ++ s ≡ l ++ d ∷ s
append-last [] s d = refl
append-last (x ∷ l) s d = let r = append-last l s d in λ i. x ∷ r i

double : (n a b : ℕ) → a + 1 ≡ 2 ^ n → b + 1 ≡ 2 ^ n → a + suc b + 1 ≡ 2 ^ suc n
double n a b p q = simp towards_suc (omega (arith, p, q))

-- What move() does with the disks `top` on `from`: they end on `to`, by legal moves, one less than
-- the power of two, and the other disks stay.
pub record Solved (n from to via : ℕ) (top base : List ℕ) (t u : Towers) : Type 0 where
  pub count : ℕ
  pub size : count + 1 ≡ 2 ^ n
  pub moves : Moves count t u
  pub source : disks (u from) ≡ base
  pub target : disks (u to) ≡ top ++ disks (t to)
  pub spare : disks (u via) ≡ disks (t via)
  pub others : (j : ℕ) → j ≢ from → j ≢ to → j ≢ via → u j ≡ t j

-- Three different towers, with `n` disks that get larger from the top on at the top of the first,
-- each of which fits on what is below them and on the two other towers: move() brings them to the
-- second in their order, by 2 ^ n - 1 moves of single top disks that never lie on a smaller disk,
-- and leaves the third and the disks below as they were.
pub move-Solved :
    (n from to via : ℕ) (top base : List ℕ) (t : Towers)
    → from ≢ to
    → from ≢ via
    → to ≢ via
    → disks (t from) ≡ top ++ base
    → length top ≡ n
    → Rising top
    → AllFit top base
    → AllFit top (disks (t to))
    → AllFit top (disks (t via))
    → Solved n from to via top base t (move n from to via t)
unfolding move
move-Solved zero from to via [] base t ft fv tv at len rising on_base on_to on_via = record {
  count = 0;
  size = refl;
  moves = done;
  source = at;
  target = refl;
  spare = refl;
  others = λ j a b c. refl;
}
move-Solved zero from to via (x ∷ top) base t ft fv tv at len rising on_base on_to on_via =
    absurd (omega arith)
move-Solved (suc n) from to via top base t ft fv tv at len rising on_base on_to on_via =
    let s = split n top len in
    let d = s.last in
    let whole = s.whole in
    let t1 = move n from via to t in
    let t2 = move_disk from to t1 in
    let to_init =
      AllFit-init d s.init (disks (t to)) (subst (λ l. AllFit l (disks (t to))) whole on_to) in
    let via_init =
      AllFit-init d s.init (disks (t via)) (subst (λ l. AllFit l (disks (t via))) whole on_via) in
    let base_init = AllFit-init d s.init base (subst (λ l. AllFit l base) whole on_base) in
    let top_init = Rising-init d s.init base (subst Rising whole rising) in
    let on_d = (Rising-init d s.init (disks (t to)) (subst Rising whole rising)).1 in
    let first =
      move-Solved n from via to s.init (d ∷ base) t fv ft (λ e. tv (sym e))
        (at ∙ ap (λ l. l ++ base) whole ∙ append-last s.init base d) s.size top_init.0 top_init.1
        via_init.0 to_init.0 in
    let m = move_disk-Moved from to d base t1 first.source ft in
    let via_same : t2 via ≡ t1 via = m.others via (λ e. fv (sym e)) (λ e. tv (sym e)) in
    let put_on : disks (t2 to) ≡ d ∷ disks (t to) = m.put_on ∙ ap (λ l. d ∷ l) first.spare in
    let second =
      move-Solved n via to from s.init (disks (t via)) t2 (λ e. tv (sym e)) (λ e. fv (sym e))
        (λ e. ft (sym e)) (ap disks via_same ∙ first.target) s.size top_init.0 via_init.0
        (subst (λ l. AllFit s.init l) (sym put_on) on_d)
        (subst (λ l. AllFit s.init l) (sym m.taken) base_init.0) in
    record {
      count = first.count + suc second.count;
      size = double n first.count second.count first.size second.size;
      moves = Moves-append first.moves (
          one from to d base first.source ft (subst (λ l. Fits d l) (sym first.spare) to_init.1)
            second.moves);
      source = second.spare ∙ m.taken;
      target =
          second.target
          ∙ ap (λ l. s.init ++ l) put_on
          ∙ sym (append-last s.init (disks (t to)) d)
          ∙ ap (λ l. l ++ disks (t to)) (sym whole);
      spare = second.source;
      others = λ j a b c. second.others j c b a ∙ m.others j a b ∙ first.others j a c b;
    }

-- The towers of a game with `n` disks, 1 on the top.
abbrev pub pile : ℕ → ℕ → List ℕ
pile i zero = []
pile i (suc n) = i ∷ pile (i + 1) n

-- hanoi() puts the disks 1 to 7 on the first tower and brings them to the third, in their order, by
-- 127 legal moves, and leaves the other two towers empty.
pub hanoi-Moves :
    let start = add_disks 7 (λ i. init_tower) in
    (disks (start 0) ≡ pile 1 7)
    × Moves 127 start hanoi
    × (disks (hanoi 0) ≡ [])
    × (disks (hanoi 1) ≡ [])
    × (disks (hanoi 2) ≡ pile 1 7)
unfolding hanoi
hanoi-Moves =
    let start = add_disks 7 (λ i. init_tower) in
    let piled : disks (start 0) ≡ pile 1 7 = unfold add_disks add_disk in refl in
    let empty1 : disks (start 1) ≡ [] = unfold add_disks add_disk in refl in
    let empty2 : disks (start 2) ≡ [] = unfold add_disks add_disk in refl in
    let s : Solved 7 0 2 1 (pile 1 7) [] start (move 7 0 2 1 start) =
      move-Solved 7 0 2 1 (pile 1 7) [] start (omega arith) (omega arith) (omega arith) piled refl
        (omega arith) (omega arith) (subst (λ l. AllFit (pile 1 7) l) (sym empty2) (omega arith))
        (subst (λ l. AllFit (pile 1 7) l) (sym empty1) (omega arith)) in
    let count : s.count ≡ 127 = omega (arith, s.size) in
    (
      piled,
      subst (λ k. Moves k start (move 7 0 2 1 start)) count s.moves,
      s.source,
      s.spare ∙ empty1,
      s.target ∙ ap (λ l. pile 1 7 ++ l) empty2,
    )
