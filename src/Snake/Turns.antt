-- ===== src/Snake/Turns.antt =====
-- What one step does to a snake that lives, and two keys between two steps.
use smart_os.Base.{
  ℕ, suc, ◌+◌, ◌-◌, ◌<◌, ◌≡◌, refl, sym, ap, ◌∙◌, subst, Bool, true, false, not, ◌||◌, ◌&&◌,
  Bool-cases, inl, inr, ◌∷◌, u32, ltb, leb, if◌then◌else◌, arith,
}
use smart_os.Snake.{
  up, left, right, running, game_over, win, Position, Game, max_len, same, occupied, new_head,
  hits_wall, move, eat, is_running, update_game, turn, press, input_by, input,
}
use smart_os.Snake.Parts.{parts, has_position, occupied_lem, parts-move, spawn_food_lem}
use smart_os.Snake.Moves.{IsValid}

-- The head of the snake after the next step, and whether it lives then.
abbrev pub next_head : Game → Position
next_head g = new_head g.direction (g.body 0)

abbrev pub lives : Game → Bool
lives g =
    not (hits_wall (next_head g)) && not (has_position (next_head g) (parts g.length 0 g.body))

lives_lem :
    (wall hit : Bool) (hit' : Bool)
    → hit' ≡ hit
    → (not wall && not hit) ≡ true
    → (wall || hit') ≡ false
lives_lem wall hit hit' e h = ground arith

step_lem :
    (g : Game)
    → g.state ≡ running
    → lives g ≡ true
    → update_game g ≡ (
        if same (next_head g) g.food
        then (if leb max_len (eat g).length
            then record (eat g) { state = win }
            else move (eat g) (next_head g))
        else move g (next_head g))
unfolding update_game
step_lem g r alive =
    rw
      (
        update_game,
        ap is_running r,
        lives_lem (hits_wall (next_head g)) (has_position (next_head g) (parts g.length 0 g.body))
            (occupied g.length 0 g.body (next_head g))
            (occupied_lem g.length 0 g.body (next_head g)) alive,
      )
      refl

-- `g'` is the game with the head in front of `m` parts of the old snake, and with the score.
abbrev pub Stepped : Game → ℕ → ℕ → Game → Type 0
Stepped g m score g' =
    (g'.state ≡ running)
    × (parts g'.length 0 g'.body ≡ next_head g ∷ parts m 0 g.body)
    × (g'.score ≡ score)

moved_lem :
    (g : Game) (n : ℕ)
    → g.state ≡ running
    → g.length ≡ suc n
    → Stepped g n g.score (move g (next_head g))
moved_lem g n r e =
    (r, ap (λ m. parts m 0 (move g (next_head g)).body) e ∙ parts-move g (next_head g) n e, refl)

fed_lem :
    (g : Game) (n : ℕ) (food : Position) (seed : ℕ)
    → g.state ≡ running
    → g.length ≡ suc n
    → suc (suc n) < max_len
    → let fed : Game = record g {
      score = u32 (g.score + 10);
      length = if ltb g.length max_len then g.length + 1 else g.length;
      food = food;
      rand_seed = seed;
    } in
      Stepped g
        (suc n)
        (u32 (g.score + 10))
        (if leb max_len fed.length then record fed { state = win } else move fed (next_head g))
fed_lem g n food seed r e room =
    let fed : Game = record g {
      score = u32 (g.score + 10);
      length = if ltb g.length max_len then g.length + 1 else g.length;
      food = food;
      rand_seed = seed;
    } in
    let grown : fed.length ≡ suc (suc n) = longer g.length n e room in
    let short : leb max_len fed.length ≡ false = ap (leb max_len) grown ∙ below n room in
    rw short (
      r,
      ap (λ m. parts m 0 (move fed (next_head g)).body) grown
          ∙ parts-move fed (next_head g) (suc n) grown,
      refl,
    )
  where
    longer :
        (l n : ℕ)
        → l ≡ suc n
        → suc (suc n) < max_len
        → (if ltb l max_len then l + 1 else l) ≡ suc (suc n)
    longer l n e room = ground arith

    below : (n : ℕ) → suc (suc n) < max_len → leb max_len (suc (suc n)) ≡ false
    below n room = ground arith

-- A step of a valid running game in which the snake lives, and is not about to fill the board: the new
-- head comes in front. With the food there, every part stays and the score grows by 10; otherwise the
-- last part goes, and the score stays.
pub update_game_lem :
    (g : Game) (n : ℕ)
    → IsValid g
    → g.state ≡ running
    → g.length ≡ suc n
    → suc (suc n) < max_len
    → lives g ≡ true
    → Stepped g
        (if same (next_head g) g.food then suc n else n)
        (if same (next_head g) g.food then u32 (g.score + 10) else g.score)
        (update_game g)
update_game_lem g n v r e room alive =
    subst (Stepped g _ _) (sym (step_lem g r alive))
      (elim (Bool-cases (same (next_head g) g.food)) [
        | inr plain ↦ rw plain (moved_lem g n r e)
        | inl ate ↦
            let (f, s, _, q) =
              spawn_food_lem
                (record g {
                  score = u32 (g.score + 10);
                  length = if ltb g.length max_len then g.length + 1 else g.length;
                })
                v.food_inside in
            rw ate (
              subst
                (λ fed. Stepped g (suc n) (u32 (g.score + 10)) (
                  if leb max_len fed.length
                  then record fed { state = win }
                  else move fed (next_head g)))
                (sym q) (fed_lem g n f s r e room))
      ])

running_input :
    (g : Game) (key tick : ℕ)
    → g.state ≡ running
    → input g key tick ≡ press g (if leb b'a' key && leb key b'z' then key - b'a' + b'A' else key)
unfolding input input_by
running_input g key tick r =
    ap (λ s. input_by s g (if leb b'a' key && leb key b'z' then key - b'a' + b'A' else key) tick) r

-- The keys W and A of a snake that goes right.
two_keys :
    (g : Game) (tick tick' : ℕ)
    → g.state ≡ running
    → g.direction ≡ right
    → input (input g b'w' tick) b'a' tick' ≡ record g { direction = left }
two_keys g tick tick' r d =
    ap (λ h. input h b'a' tick')
      (running_input g b'w' tick r ∙ ap (λ d. record g { direction = turn up d }) d)
    ∙ running_input (record g { direction = up }) b'a' tick' r

or_true : (b : Bool) → (b || true) ≡ true
or_true true = refl
or_true false = refl

same_refl : (p : Position) → same p p ≡ true
same_refl p = ground arith

bites :
    (g : Game) (n : ℕ) (head : Position)
    → g.length ≡ suc (suc n)
    → g.body 1 ≡ head
    → occupied g.length 0 g.body head ≡ true
bites g n head e b =
    occupied_lem g.length 0 g.body head
    ∙ ap (λ m. has_position head (parts m 0 g.body)) e
    ∙ ap (λ t. same (g.body 0) head || (t || has_position head (parts n 2 g.body)))
        (ap (λ p. same p head) b ∙ same_refl head)
    ∙ or_true (same (g.body 0) head)

step_dies :
    (g : Game)
    → g.state ≡ running
    → occupied g.length 0 g.body (next_head g) ≡ true
    → (update_game g).state ≡ game_over
unfolding update_game
step_dies g r hit = rw (update_game, ap is_running r, hit, or_true (hits_wall (next_head g))) refl

-- A running snake that goes right, with its second part behind its head: the keys W and A between two
-- steps turn it round, and the next step ends the game.
pub update_game_reversed :
    (g : Game) (n tick tick' : ℕ)
    → g.state ≡ running
    → g.direction ≡ right
    → g.length ≡ suc (suc n)
    → g.body 1 ≡ new_head left (g.body 0)
    → (update_game (input (input g b'w' tick) b'a' tick')).state ≡ game_over
update_game_reversed g n tick tick' r d e b =
    ap (λ h. (update_game h).state) (two_keys g tick tick' r d)
    ∙ step_dies (record g { direction = left }) r (bites g n (new_head left (g.body 0)) e b)
