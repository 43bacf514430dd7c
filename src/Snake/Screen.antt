-- ===== src/Snake/Screen.antt =====
-- What the game prints: snake_game_start, snake_game_render and snake_game_exit.
use smart_os.Base.{ℕ, zero, suc, ◌+◌, ◌-◌, List, [], ◌∷◌, ◌++◌, if◌then◌else◌, replicate}
use mathlib.Core.List.{map}
use smart_os.Snake.{
  GameState, running, game_over, win, paused, Position, Game, width, height, same, occupied,
}
use smart_os.Shell.Console.{Output, print, print_bytes, hex, putc}

-- The escape character and what follows it.
abbrev escape : List ℕ → Output
escape cs = print_bytes (27 ∷ cs)

abbrev clear_screen : List Output
clear_screen = escape (b'[' ∷ b'2' ∷ b'J' ∷ []) ∷ escape (b'[' ∷ b'H' ∷ []) ∷ []

pub start_screen : List Output
start_screen =
    escape (b'[' ∷ b'?' ∷ b'2' ∷ b'5' ∷ b'l' ∷ []) ∷ clear_screen
    ++ print "========================================\n"
      ∷ print "         SNAKE GAME - Smart-OS\n"
      ∷ print "========================================\n"
      ∷ print "\n"
      ∷ print "Controls:\n"
      ∷ print "  W - Up\n"
      ∷ print "  S - Down\n"
      ∷ print "  A - Left\n"
      ∷ print "  D - Right\n"
      ∷ print "  P - Pause\n"
      ∷ print "  Q - Quit\n"
      ∷ print "\n"
      ∷ print "Press any key to start...\n"
      ∷ []

-- The character of a cell: the food hides the snake, and the head the rest of it.
pub cell : Game → ℕ → ℕ → ℕ
unfolding occupied
cell g x y =
    let p : Position = record { x = x; y = y } in
    let body = if occupied (g.length - 1) 1 g.body p then b'o' else b' ' in
    if same g.food p then b'*' else if same (g.body 0) p then b'@' else body

-- `n` cells of a row from the column `x` on, and `n` rows from `y` on.
pub draw_row : ℕ → ℕ → ℕ → Game → List Output
unfolding cell
draw_row zero x y g = []
draw_row (suc n) x y g = putc (cell g x y) ∷ draw_row n (x + 1) y g

pub draw_rows : ℕ → ℕ → Game → List Output
unfolding draw_row
draw_rows zero y g = []
draw_rows (suc n) y g = putc b'|' ∷ draw_row width 0 y g ++ print "|\n" ∷ draw_rows n (y + 1) g

abbrev border : List Output
border = putc b'+' ∷ map putc (replicate width b'-') ++ print "+\n" ∷ []

pub state_lines : GameState → List Output
state_lines game_over = print "\n*** GAME OVER ***\n" ∷ print "Press R to restart, Q to quit\n" ∷ []
state_lines win = print "\n*** YOU WIN! ***\n" ∷ print "Press R to restart, Q to quit\n" ∷ []
state_lines paused = print "\n*** PAUSED ***\n" ∷ print "Press P to resume\n" ∷ []
state_lines running = print "\nW/A/S/D: Move  P: Pause  Q: Quit\n" ∷ []

pub render : Game → List Output
unfolding draw_rows state_lines
render g =
    let head =
      print "\n========================================\n"
      ∷ print "Score: "
      ∷ hex g.score
      ∷ print "  Length: "
      ∷ hex g.length
      ∷ print "\n\n"
      ∷ [] in
    head ++ border ++ draw_rows height 0 g ++ border ++ state_lines g.state

pub exit_screen : List Output
exit_screen =
    escape (b'[' ∷ b'?' ∷ b'2' ∷ b'5' ∷ b'h' ∷ []) ∷ clear_screen
    ++ print "Thanks for playing!\n\n" ∷ []
