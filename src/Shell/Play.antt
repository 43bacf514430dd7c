-- ===== src/Shell/Play.antt =====
-- `cmd_snake`: the loop that runs the game. What arrives from outside is a list of rounds.
use smart_os.Base.{
  ℕ, Bool, true, false, ◌&&◌, ◌||◌, List, [], ◌∷◌, ◌++◌, sub_u32, leb, ◌==◌, if◌then◌else◌,
  Bool-cases, inl, inr,
}
use smart_os.Snake.{Game, is_running, update_game, input, init}
use smart_os.Snake.Moves.{IsValid, init-IsValid, input-IsValid, update_game-IsValid}
use smart_os.Snake.Screen.{start_screen, render, exit_screen}
use smart_os.Shell.Console.{Output, print}

-- A character that `smart_uart_getc_nonblock` gives, and the tick at the time, which seeds a restarted game.
pub record Key : Type 0 where
  pub char : ℕ
  pub tick : ℕ

-- A round of the loop: its characters, up to where there is none, and the tick that is read behind them.
pub record Round : Type 0 where
  pub keys : List Key
  pub now : ℕ

-- The loop over the characters; the Boolean says whether one of them is `q` or `Q`, which ends the loop.
pub handle_keys : Game → List Key → Game × Bool
handle_keys g [] = (g, false)
handle_keys g (k ∷ ks) =
    let rest = handle_keys (input g k.char k.tick) ks in
    if k.char == b'q' || k.char == b'Q' then (g, true) else rest

-- The rest of a round: the step of a running game when 200 ticks have passed, with `last_update`.
pub step : Game → ℕ → ℕ → List Output × Game × ℕ
step g last_update now =
    if is_running g.state && leb 200 (sub_u32 now last_update)
    then (render (update_game g), update_game g, now)
    else ([], g, last_update)

-- The loop while there are rounds; the Boolean says whether the player has quit.
pub play : Game → ℕ → List Round → List Output × Game × Bool
unfolding handle_keys step
play g last_update [] = ([], g, false)
play g last_update (r ∷ rs) =
    let (pressed, quit) = handle_keys g r.keys in
    let (shown, stepped, last_update) = step pressed last_update r.now in
    let (more, end, stopped) = play stepped last_update rs in
    if quit then (shown, stepped, true) else (shown ++ more, end, stopped)

-- The whole command, from the tick that seeds the game and the one behind the first key.
pub cmd_snake : ℕ → ℕ → List Round → List Output × Game × Bool
unfolding play
cmd_snake seed_tick start rounds =
    let (shown, g, stopped) = play (init seed_tick) start rounds in
    let goodbye = if stopped then exit_screen else [] in
    (
      start_screen
          ++ print "\n=== GAME START ===\n" ∷ print "Use W/A/S/D to control, Q to quit\n\n" ∷ shown
          ++ goodbye,
      g,
      stopped,
    )

handle_keys-IsValid : (g : Game) (ks : List Key) → IsValid g → IsValid (handle_keys g ks).0
unfolding handle_keys
handle_keys-IsValid g [] v = v
handle_keys-IsValid g (k ∷ ks) v = elim (Bool-cases (k.char == b'q' || k.char == b'Q')) [
  | inl quit ↦ rw (handle_keys, quit) v
  | inr other ↦
      rw (handle_keys, other)
        (handle_keys-IsValid (input g k.char k.tick) ks (input-IsValid g k.char k.tick v))
]

step-IsValid : (g : Game) (last_update now : ℕ) → IsValid g → IsValid (step g last_update now).1
unfolding step
step-IsValid g last_update now v =
    elim (Bool-cases (is_running g.state && leb 200 (sub_u32 now last_update))) [
      | inl due ↦ rw (step, due) (update_game-IsValid g v)
      | inr early ↦ rw (step, early) v
    ]

play-IsValid :
    (g : Game) (last_update : ℕ) (rs : List Round) → IsValid g → IsValid (play g last_update rs).1
unfolding play
play-IsValid g last_update [] v = v
play-IsValid g last_update (r ∷ rs) v =
    let pressed : Game × Bool = handle_keys g r.keys in
    let stepped : List Output × Game × ℕ = step pressed.0 last_update r.now in
    let w : IsValid stepped.1 =
      step-IsValid pressed.0 last_update r.now (handle_keys-IsValid g r.keys v) in
    elim (Bool-cases pressed.1) [
      | inl quit ↦ rw (play, quit) w
      | inr on ↦ rw (play, on) (play-IsValid stepped.1 stepped.2 rs w)
    ]

-- Whatever the keys and the ticks of the rounds are: when the command stops, or the rounds end, the snake has between
-- 3 and 200 parts and the food lies on the board; unless the game is won, all parts lie on the board and no two at
-- one place.
pub cmd_snake-IsValid :
    (seed_tick start : ℕ) (rounds : List Round) → IsValid (cmd_snake seed_tick start rounds).1
unfolding cmd_snake
cmd_snake-IsValid seed_tick start rounds =
    play-IsValid (init seed_tick) start rounds (init-IsValid seed_tick)
