-- ===== src/Kernels/Typing.antt =====
-- The letters of typing-game/game.c: their fall and the keys. Coordinates and speeds are integers;
-- `h` is screen_h.
pub mod Hit
pub mod Screen
use ic_competition.Base.{
  ℕ, zero, suc, ◌+◌, ◌-◌, ◌/◌, ◌%◌, ◌==◌, ltb, if◌then◌else◌, Bool, true, false, not, ◌&&◌, ◌||◌,
  Option, none, some, bit_and, ℤ, pos, negsuc, pos_part, neg_part, sub_ℕ, neg, ltb_ℤ,
}

pub record Character : Type 0 where
  pub ch : ℕ
  pub x : ℕ
  pub y : ℤ
  pub v : ℤ
  pub t : ℕ

pub record Game : Type 0 where
  pub chars : ℕ → Character
  pub hit : ℕ
  pub miss : ℕ
  pub wrong : ℕ

abbrev pub add_ℤ : ℤ → ℤ → ℤ
add_ℤ a b = sub_ℕ (pos_part a + pos_part b) (neg_part a + neg_part b)

abbrev pub set_char : ℕ → Character → Game → Game
set_char i c g = record g { chars = λ j. if j == i then c else g.chars j }

-- `screen_h - CHAR_H`
abbrev pub floor : ℕ → ℤ
floor h = sub_ℕ h 16

-- A letter that lies on the ground, for `t` frames yet.
abbrev pub lie : Character → Character
lie c = if c.t == 1 then record c { t = 0; ch = 0 } else record c { t = c.t - 1 }

-- `c->y += c->v; if (c->y < 0) c->ch = '\0';`
abbrev pub move : Character → Character
move c =
    let y = add_ℤ c.y c.v in
    if ltb_ℤ y (pos 0) then record c { y = y; ch = 0 } else record c { y = y }

-- `if (c->y + CHAR_H >= screen_h)`: the letter is missed.
abbrev pub land : ℕ → ℕ → Character → Game → Game
land h i c g =
    if ltb_ℤ (add_ℤ c.y (pos 16)) (pos h)
    then set_char i c g
    else set_char i (record c { v = pos 0; y = floor h; t = 30 }) (record g { miss = g.miss + 1 })

abbrev pub update_char : ℕ → ℕ → Game → Game
update_char h i g =
    let c = g.chars i in
    if c.ch == 0 then g else if c.t == 0 then land h i (move c) g else set_char i (lie c) g

-- The loop of game_logic_update(), with the rounds left first.
unfoldable pub update_loop : ℕ → ℕ → ℕ → Game → Game
update_loop zero i h g = g
update_loop (suc r) i h g = update_loop r (i + 1) h (update_char h i g)

-- The letter `i` is `ch`, falls, and is lower than the letter `m`.
abbrev pub is_better : ℕ → Option ℕ → Character → (ℕ → Character) → Bool
is_better ch m c chars =
    ch == c.ch && ltb_ℤ (pos 0) c.v && (elim m [ none ↦ true | some k ↦ ltb_ℤ (chars k).y c.y ])

-- The loop of check_hit(); the m of the code that is -1 is `none`.
unfoldable pub find_hit : ℕ → ℕ → ℕ → Option ℕ → (ℕ → Character) → Option ℕ
find_hit zero i ch m chars = m
find_hit (suc r) i ch m chars =
    find_hit r (i + 1) ch (if is_better ch m (chars i) chars then some i else m) chars

-- `-(screen_h - CHAR_H + 1) / FPS`, for a screen that holds a letter.
abbrev pub bounce : ℕ → ℤ
bounce h = neg (pos ((h - 15) / 30))

unfoldable pub judge : ℕ → Option ℕ → Game → Game
judge h none g = record g { wrong = g.wrong + 1 }
judge h (some m) g = set_char m (record (g.chars m) { v = bounce h }) (record g { hit = g.hit + 1 })

unfoldable pub check_hit : ℕ → ℕ → Game → Game
check_hit h ch g = judge h (find_hit 128 0 ch none g.chars) g

-- `rnd` is what rand() returns.
abbrev pub randint : ℕ → ℕ → ℕ → ℕ
randint l r rnd = l + bit_and rnd 0x7fffffff % (r - l + 1)

-- The letter that new_char() makes from three results of rand(), on a screen `w` wide,
-- which holds a letter: 8 ≤ w.
abbrev pub made : ℕ → ℕ → ℕ → ℕ → ℕ → Character
made w h a b c = record {
  ch = b'A' + randint 0 25 a;
  x = randint 0 (w - 8) b;
  y = pos 0;
  v = pos ((h - 15) / randint 45 60 c);
  t = 0;
}

-- The loop of new_char(), with the rounds left first.
unfoldable pub new_char : ℕ → ℕ → Character → Game → Game
new_char zero i fresh g = g
new_char (suc r) i fresh g =
    let rest = new_char r (i + 1) fresh g in
    if (g.chars i).ch == 0 then set_char i fresh g else rest

abbrev pub game_logic_update : ℕ → ℕ → ℕ → (a b c : ℕ) → Game → Game
game_logic_update w h frame a b c g =
    update_loop 128 0 h (if frame % 6 == 0 then new_char 128 0 (made w h a b c) g else g)
