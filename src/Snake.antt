-- ===== src/Snake.antt =====
-- user/snake_game.c and its header: the game's state and its step. A coordinate is an `int8_t`, kept as
-- its byte; the array of the body is a function of the index.
pub mod Parts
pub mod Moves
pub mod Turns
pub mod Screen
mod Tests
use smart_os.Base.{
  ℕ, zero, suc, ◌+◌, ◌-◌, ◌*◌, ◌/◌, ◌%◌, Bool, true, false, not, ◌||◌, ◌&&◌, u32, ltb, leb, ◌==◌,
  if◌then◌else◌,
}
use smart_os.Base.Chain.{update}

-- `snake_direction_t`
pub data Direction : Type 0 where
  up down left right : Direction

-- `game_state_t`
pub data GameState : Type 0 where
  running game_over win paused : GameState

-- `position_t`
pub record Position : Type 0 where
  pub x : ℕ
  pub y : ℕ

-- `game_context_t` with its `snake_t`, and `rand_seed`.
pub record Game : Type 0 where
  pub body : ℕ → Position
  pub length : ℕ
  pub direction : Direction
  pub food : Position
  pub state : GameState
  pub score : ℕ
  pub high_score : ℕ
  pub rand_seed : ℕ

abbrev pub width : ℕ
width = 20

abbrev pub height : ℕ
height = 10

abbrev pub max_len : ℕ
max_len = 200

abbrev pub next_seed : ℕ → ℕ
next_seed seed = u32 (seed * 1103515245 + 12345)

abbrev pub rand_of : ℕ → ℕ
rand_of seed = seed / 65536 % 32768

abbrev pub same : Position → Position → Bool
same p q = p.x == q.x && p.y == q.y

-- The loop that compares a position with `n` parts of the body from part `i` on.
unfoldable pub occupied : ℕ → ℕ → (ℕ → Position) → Position → Bool
occupied zero i body p = false
occupied (suc n) i body p = same (body i) p || occupied n (i + 1) body p

-- The loop of `spawn_food`, for `n` attempts.
pub spawn : ℕ → Game → Game
spawn zero g = g
spawn (suc n) g =
    let seed_x = next_seed g.rand_seed in
    let seed_y = next_seed seed_x in
    let food : Position = record { x = rand_of seed_x % width; y = rand_of seed_y % height } in
    let g = record g { food = food; rand_seed = seed_y } in
    let rest = spawn n g in if occupied g.length 0 g.body food then rest else g

pub spawn_food : Game → Game
spawn_food g = spawn 100 g

-- The body that `snake_game_init` lays out.
abbrev pub first_body : ℕ → Position
first_body i =
    if i == 0
    then record { x = 10; y = 5 }
    else if i == 1
    then record { x = 9; y = 5 }
    else if i == 2
    then record { x = 8; y = 5 }
    else record { x = 0; y = 0 }

pub init : ℕ → Game
init tick =
    let g = spawn_food (record {
      body = first_body;
      length = 3;
      direction = right;
      food = record { x = 0; y = 0 };
      state = running;
      score = 0;
      high_score = 0;
      rand_seed = tick;
    }) in
    record g { state = running; score = 0 }

abbrev pub new_head : Direction → Position → Position
new_head up p = record p { y = (p.y + 255) % 256 }
new_head down p = record p { y = (p.y + 1) % 256 }
new_head left p = record p { x = (p.x + 255) % 256 }
new_head right p = record p { x = (p.x + 1) % 256 }

-- A byte is negative as an `int8_t` from 128 on.
abbrev pub hits_wall : Position → Bool
hits_wall p = leb 128 p.x || leb width p.x || leb 128 p.y || leb height p.y

-- `body[i] = body[i - 1]` for `i` from `n` down to 1.
pub shift : ℕ → (ℕ → Position) → ℕ → Position
shift zero body = body
shift (suc i) body = shift i (update body (suc i) (body i))

abbrev pub move : Game → Position → Game
move g head = record g { body = update (shift (g.length - 1) g.body) 0 head }

abbrev pub eat : Game → Game
eat g = spawn_food (record g {
  score = u32 (g.score + 10);
  length = if ltb g.length max_len then g.length + 1 else g.length;
})

abbrev pub is_running : GameState → Bool
is_running running = true
is_running game_over = false
is_running win = false
is_running paused = false

pub update_game : Game → Game
update_game g =
    let head = new_head g.direction (g.body 0) in
    if not (is_running g.state)
    then g
    else if hits_wall head || occupied g.length 0 g.body head
    then record g { state = game_over }
    else if same head g.food
    then (let fed = eat g in
        if leb max_len fed.length then record fed { state = win } else move fed head)
    else move g head

-- `snake_game_input` of a key, with the tick that a restart takes for its seed.
abbrev pub turn : Direction → Direction → Direction
turn up down = down
turn up d = up
turn down up = up
turn down d = down
turn left right = right
turn left d = left
turn right left = left
turn right d = right

abbrev pub press : Game → ℕ → Game
press g key =
    if key == b'W'
    then record g { direction = turn up g.direction }
    else if key == b'S'
    then record g { direction = turn down g.direction }
    else if key == b'A'
    then record g { direction = turn left g.direction }
    else if key == b'D'
    then record g { direction = turn right g.direction }
    else if key == b'P'
    then record g { state = paused }
    else g

pub input_by : GameState → Game → ℕ → ℕ → Game
input_by running g key tick = press g key
input_by paused g key tick = if key == b'P' then record g { state = running } else g
input_by game_over g key tick = if key == b'R' then init tick else g
input_by win g key tick = if key == b'R' then init tick else g

pub input : Game → ℕ → ℕ → Game
input g key tick =
    input_by g.state g (if leb b'a' key && leb key b'z' then key - b'a' + b'A' else key) tick
