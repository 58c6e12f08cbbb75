-- ===== src/Kernels/Snake/Play.antt =====
-- One round of the game.
use ic_competition.Base.{
  ℕ, ◌+◌, ◌-◌, ◌%◌, ◌^◌, ◌<◌, ◌≤◌, ◌≡◌, ◌≢◌, refl, sym, ap, subst, ◌∙◌, ◌⊎◌, inl, inr, ◌↔◌, true,
  arith, Bool-cases,
}
use ic_competition.Kernels.Snake.{
  Dir, up, down, left, right, nowhere, Point, Dim, Snake, same_point, neighbour, move_snake,
  outside, is_dead, has_food, get_dir, steer, Game, feed, play,
}
use ic_competition.Kernels.Snake.Body.{
  front, cell, cell-front, Covers, Bite, bites-Bite, Bite-bites, move_snake-front, move_snake-cell,
}

abbrev pub opposite : Dir → Dir
opposite nowhere = nowhere
opposite up = down
opposite down = up
opposite left = right
opposite right = left

-- The snake grew on the food, or stayed as long as it was.
abbrev pub Fed : Point → Game → Game → Type 0
Fed fresh g g' =
    (Covers (front g'.snake) g.food × (g'.snake.length ≡ g.snake.length + 1) × (g'.food ≡ fresh))
    ⊎ ((Covers (front g'.snake) g.food → ⊥)
        × (g'.snake.length ≡ g.snake.length)
        × (g'.food ≡ g.food))

-- One tile on, in the direction, on coordinates of 32 bits.
abbrev pub Next : Dir → Point → Point → Type 0
Next nowhere p q = ⊥
Next up p q = (q.x ≡ p.x) × (q.y < 2 ^ 32) × ((q.y + 1) % 2 ^ 32 ≡ p.y % 2 ^ 32)
Next down p q = (q.x ≡ p.x) × (q.y ≡ (p.y + 1) % 2 ^ 32)
Next left p q = (q.x < 2 ^ 32) × ((q.x + 1) % 2 ^ 32 ≡ p.x % 2 ^ 32) × (q.y ≡ p.y)
Next right p q = (q.x ≡ (p.x + 1) % 2 ^ 32) × (q.y ≡ p.y)

neighbour-Next : (dir : Dir) (p : Point) → dir ≢ nowhere → Next dir p (neighbour dir p)
unfolding neighbour
neighbour-Next nowhere p ne = absurd (ne refl)
neighbour-Next up p ne = (refl, omega arith, omega arith)
neighbour-Next down p ne = (refl, refl)
neighbour-Next left p ne = (omega arith, omega arith, refl)
neighbour-Next right p ne = (refl, refl)

-- On one of the four walls around the board: column or row -1, column `width` or row `height`.
abbrev pub OnWall : Dim → Point → Type 0
OnWall game_size p =
    (p.x ≡ 2 ^ 32 - 1) ⊎ (p.x ≡ game_size.width) ⊎ (p.y ≡ 2 ^ 32 - 1) ⊎ (p.y ≡ game_size.height)

outside-OnWall : (game_size : Dim) (p : Point) → (outside game_size p ≡ true) ↔ OnWall game_size p
outside-OnWall game_size p = ((λ h. ground arith), (λ h. ground arith))

pub record Played (game_size : Dim) (fresh : Point) (g g' : Game) : Type 0 where
  pub turned : (g'.dir ≢ opposite g.dir) × (g'.dir ≢ nowhere)
  pub head : Next g'.dir (front g.snake) (front g'.snake)
  pub trail : (i : ℕ) → i < 99 → cell g'.snake (i + 1) ≡ cell g.snake i
  pub starts : cell g'.snake 0 ≡ front g'.snake
  pub dead : (g'.snake.dead ≡ true) ↔ (
      OnWall game_size (front g'.snake)
      ⊎ Bite (g.snake.length - 1) 1 (front g'.snake) (cell g'.snake))
  pub fed : Fed fresh g g'
  pub in_ring : g'.snake.index < 100

steer-turned :
    (key dir : Dir) → dir ≢ nowhere → (steer key dir ≢ opposite dir) × (steer key dir ≢ nowhere)
unfolding steer
steer-turned nowhere nowhere ne = absurd (ne refl)
steer-turned nowhere up ne = (λ e. cc, λ e. cc)
steer-turned nowhere down ne = (λ e. cc, λ e. cc)
steer-turned nowhere left ne = (λ e. cc, λ e. cc)
steer-turned nowhere right ne = (λ e. cc, λ e. cc)
steer-turned up nowhere ne = absurd (ne refl)
steer-turned up up ne = (λ e. cc, λ e. cc)
steer-turned up down ne = (λ e. cc, λ e. cc)
steer-turned up left ne = (λ e. cc, λ e. cc)
steer-turned up right ne = (λ e. cc, λ e. cc)
steer-turned down nowhere ne = absurd (ne refl)
steer-turned down up ne = (λ e. cc, λ e. cc)
steer-turned down down ne = (λ e. cc, λ e. cc)
steer-turned down left ne = (λ e. cc, λ e. cc)
steer-turned down right ne = (λ e. cc, λ e. cc)
steer-turned left nowhere ne = absurd (ne refl)
steer-turned left up ne = (λ e. cc, λ e. cc)
steer-turned left down ne = (λ e. cc, λ e. cc)
steer-turned left left ne = (λ e. cc, λ e. cc)
steer-turned left right ne = (λ e. cc, λ e. cc)
steer-turned right nowhere ne = absurd (ne refl)
steer-turned right up ne = (λ e. cc, λ e. cc)
steer-turned right down ne = (λ e. cc, λ e. cc)
steer-turned right left ne = (λ e. cc, λ e. cc)
steer-turned right right ne = (λ e. cc, λ e. cc)

Covers-same : (p q : Point) → Covers p q ↔ (same_point p q ≡ true)
Covers-same p q = ((λ h. ground (arith, h.0, h.1)), (λ h. (ground arith, ground arith)))

is_dead_iff :
    (game_size : Dim) (s : Snake)
    → (is_dead game_size s ≡ true)
      ↔ (OnWall game_size (front s) ⊎ Bite (s.length - 1) 1 (front s) (cell s))
is_dead_iff game_size s = elim (Bool-cases (outside game_size (front s))) [
  | inl e ↦ ((λ h. inl ((outside-OnWall game_size (front s)).0 e)), (λ h. rw e refl))
  | inr ne ↦ (
    (λ h. inr (bites-Bite (s.length - 1) 1 (front s) s (sym (rw ne refl) ∙ h))),
    (λ h. elim h [
      | inl wall ↦ let out = (outside-OnWall game_size (front s)).1 wall in ground arith
      | inr b ↦ rw ne (Bite-bites (s.length - 1) 1 (front s) s b)
    ]),
  )
]

-- The round before the snake is fed.
record Moved (game_size : Dim) (g m : Game) : Type 0 where
  turned : (m.dir ≢ opposite g.dir) × (m.dir ≢ nowhere)
  head : Next m.dir (front g.snake) (front m.snake)
  trail : (i : ℕ) → i < 99 → cell m.snake (i + 1) ≡ cell g.snake i
  dead : (m.snake.dead ≡ true) ↔ (
      OnWall game_size (front m.snake) ⊎ Bite (g.snake.length - 1) 1 (front m.snake) (cell m.snake))
  length : m.snake.length ≡ g.snake.length
  food : m.food ≡ g.food
  in_ring : m.snake.index < 100

feed-Played :
    (game_size : Dim) (fresh : Point) (g m : Game)
    → Moved game_size g m
    → Played game_size fresh g (feed fresh m)
feed-Played game_size fresh g m v =
    let same = Covers-same (front m.snake) m.food in
    let on_food : (Covers (front m.snake) g.food) ↔ (same_point (front m.snake) m.food ≡ true) =
      subst (λ p. Covers (front m.snake) p ↔ (same_point (front m.snake) m.food ≡ true)) v.food
        same in
    elim (Bool-cases (has_food m.food m.snake)) [
      | inl e ↦ rw e (record {
        turned = v.turned;
        head = v.head;
        trail = v.trail;
        starts = cell-front m.snake;
        dead = v.dead;
        fed = inl (on_food.1 e, ap (λ n. n + 1) v.length, refl);
        in_ring = v.in_ring;
      })
      | inr ne ↦ rw ne (record {
        turned = v.turned;
        head = v.head;
        trail = v.trail;
        starts = cell-front m.snake;
        dead = v.dead;
        fed = inr ((λ h. absurd (ground (arith, on_food.0 h))), v.length, v.food);
        in_ring = v.in_ring;
      })
    ]

-- With a direction to move in, the index in the ring and a length from 1 to MAX_LENGTH: one round,
-- for every key, moves the head by one tile, modulo 2^32, in a direction that is not the opposite
-- of the last, puts each of the 99 tiles behind it where the one before it was, sets `dead` exactly
-- when the head is on column or row -1, on column `width` or row `height`, or on one of the length
-- - 1 tiles behind it, and lengthens the snake by 1 and replaces the food exactly when the head is
-- on the food.
pub play-Played :
    (game_size : Dim) (c : ℕ) (fresh : Point) (g : Game)
    → g.dir ≢ nowhere
    → g.snake.index < 100
    → 1 ≤ g.snake.length
    → g.snake.length ≤ 100
    → Played game_size fresh g (play game_size c fresh g)
play-Played game_size c fresh g ne ring least most =
    let dir = steer (get_dir c) g.dir in
    let moved = move_snake dir g.snake in
    feed-Played game_size fresh g
      (record g { snake = record moved { dead = is_dead game_size moved }; dir = dir })
      (record {
        turned = steer-turned (get_dir c) g.dir ne;
        head =
            subst (Next dir (front g.snake)) (sym (move_snake-front dir g.snake))
              (neighbour-Next dir (front g.snake) (steer-turned (get_dir c) g.dir ne).1);
        trail = λ i lt. move_snake-cell dir g.snake i ring lt;
        dead = is_dead_iff game_size moved;
        length = refl;
        food = refl;
        in_ring = ground arith;
      })
