-- ===== src/Snake/Tests.antt =====
-- A game on its board, and the theorems at it.
use smart_os.Base.{◌≡◌, refl, arith}
use smart_os.Snake.{right, running, game_over, Game, first_body, update_game, input}
use smart_os.Snake.Moves.{IsValid}
use smart_os.Snake.Turns.{Stepped, update_game_lem, update_game_reversed}

abbrev game : Game
game = record {
  body = first_body;
  length = 3;
  direction = right;
  food = record { x = 11; y = 5 };
  state = running;
  score = 0;
  high_score = 0;
  rand_seed = 1;
}

game-IsValid : IsValid game
game-IsValid = record {
  long = omega arith;
  short = omega arith;
  food_inside = refl;
  laid = λ n. (refl, refl, (refl, refl, (refl, refl, tt)));
}

update_game_lem_example : Stepped game 3 10 (update_game game)
update_game_lem_example = update_game_lem game 2 game-IsValid refl refl (omega arith) refl

update_game_reversed_example : (update_game (input (input game b'w' 0) b'a' 0)).state ≡ game_over
update_game_reversed_example = update_game_reversed game 1 0 0 refl refl refl refl
