-- ===== src/Kernels/Snake.antt =====
-- The game snake.c: the snake is a ring of positions, and one round of main's loop is `play`. An
-- `int` is a number below 2 ^ 32, so -1 is 2 ^ 32 - 1.
pub mod Body
pub mod Play
use ic_competition.Base.{
  ℕ, zero, suc, ◌+◌, ◌-◌, ◌%◌, ◌^◌, ◌==◌, ltb, if◌then◌else◌, Bool, true, false, ◌&&◌, ◌||◌,
}

pub data Dir : Type 0 where
  nowhere : Dir
  up : Dir
  down : Dir
  left : Dir
  right : Dir

pub record Point : Type 0 where
  pub x : ℕ
  pub y : ℕ

pub record Dim : Type 0 where
  pub width : ℕ
  pub height : ℕ

pub record Snake : Type 0 where
  pub body : ℕ → Point
  pub length : ℕ
  pub index : ℕ
  pub dead : Bool

abbrev pub minus_one : ℕ
minus_one = 2 ^ 32 - 1

abbrev pub same_point : Point → Point → Bool
same_point p q = p.x == q.x && p.y == q.y

-- The place `i` behind the head: `index - i`, and MAX_LENGTH more where this is negative.
abbrev pub back : ℕ → ℕ → ℕ
back index i = if ltb index i then index + 100 - i else index - i

-- The tile that clear_tail() clears.
abbrev pub tail_tile : Snake → Point
tail_tile s = s.body (back s.index s.length)

-- The codes of AM_KEY_LEFT, AM_KEY_UP, AM_KEY_RIGHT and AM_KEY_DOWN.
abbrev pub get_dir : ℕ → Dir
get_dir c =
    if c == 75
    then left
    else if c == 73
    then up
    else if c == 76
    then right
    else if c == 74
    then down
    else nowhere

unfoldable pub neighbour : Dir → Point → Point
neighbour nowhere p = p
neighbour up p = record p { y = (p.y + minus_one) % 2 ^ 32 }
neighbour down p = record p { y = (p.y + 1) % 2 ^ 32 }
neighbour left p = record p { x = (p.x + minus_one) % 2 ^ 32 }
neighbour right p = record p { x = (p.x + 1) % 2 ^ 32 }

abbrev pub move_snake : Dir → Snake → Snake
move_snake dir s =
    let p = neighbour dir (s.body s.index) in
    let index = if s.index + 1 == 100 then 0 else s.index + 1 in
    record s { index = index; body = λ j. if j == index then p else s.body j }

-- `for (i = 1; i != length; i++)`, with the rounds left first
unfoldable pub bites : ℕ → ℕ → Point → Snake → Bool
bites zero i head s = false
bites (suc r) i head s =
    let rest = bites r (i + 1) head s in
    if same_point head (s.body (back s.index i)) then true else rest

abbrev pub outside : Dim → Point → Bool
outside game_size head =
    head.x == minus_one
    || head.x == game_size.width
    || head.y == minus_one
    || head.y == game_size.height

abbrev pub is_dead : Dim → Snake → Bool
is_dead game_size s =
    let head = s.body s.index in
    if outside game_size head then true else bites (s.length - 1) 1 head s

abbrev pub has_food : Point → Snake → Bool
has_food food s = same_point (s.body s.index) food

-- The switch of main: the snake never turns back.
unfoldable pub steer : Dir → Dir → Dir
steer up down = down
steer up dir = up
steer down up = up
steer down dir = down
steer left right = right
steer left dir = left
steer right left = left
steer right dir = right
steer nowhere dir = dir

pub record Game : Type 0 where
  pub snake : Snake
  pub dir : Dir
  pub food : Point

-- What main does when the snake has moved: `fresh` is the next result of create_food().
abbrev pub feed : Point → Game → Game
feed fresh g =
    if has_food g.food g.snake
    then record g { snake = record g.snake { length = g.snake.length + 1 }; food = fresh }
    else g

-- One round of main's loop, for the key with the code `c`.
abbrev pub play : Dim → ℕ → Point → Game → Game
play game_size c fresh g =
    let dir = steer (get_dir c) g.dir in
    let moved = move_snake dir g.snake in
    feed fresh (record g { snake = record moved { dead = is_dead game_size moved }; dir = dir })
