-- ===== src/Snake/Moves.antt =====
-- The game stays well formed under every step and key.
use smart_os.Base.{
  ℕ, suc, ◌+◌, ◌-◌, ◌≤◌, ◌≡◌, ◌≢◌, refl, sym, ap, ◌∙◌, subst, inl, inr, Bool, true, false, ◌||◌,
  ◌&&◌, List, [], ◌∷◌, u32, ltb, leb, ◌==◌, if◌then◌else◌, arith, Bool-cases,
}
use smart_os.Snake.{
  Direction, up, down, left, right, GameState, running, game_over, win, paused, Position, Game,
  max_len, same, occupied, first_body, init, new_head, hits_wall, move, eat, is_running,
  update_game, turn, press, input_by, input,
}
use smart_os.Snake.Parts.{
  parts, has_position, on_board, Laid, occupied_lem, parts-move, has_position-parts, Laid-parts,
  spawn_food_lem,
}

-- What the game keeps, unless it is won.
pub record IsValid (g : Game) : Type 0 where
  pub long : 3 ≤ g.length
  pub short : g.length ≤ max_len
  pub food_inside : on_board g.food ≡ true
  pub laid : g.state ≢ win → Laid (parts g.length 0 g.body)

first-Laid : Laid (parts 3 0 first_body)
first-Laid = (refl, refl, (refl, refl, (refl, refl, tt)))

pub init-IsValid : (tick : ℕ) → IsValid (init tick)
unfolding init
init-IsValid tick =
    let (f, s, inside, e) =
      spawn_food_lem
        (record {
          body = first_body;
          length = 3;
          direction = right;
          food = record { x = 0; y = 0 };
          state = running;
          score = 0;
          high_score = 0;
          rand_seed = tick;
        })
        refl in
    subst (λ g. IsValid (record g { state = running; score = 0 })) (sym e)
      (record {
        long = omega arith;
        short = omega arith;
        food_inside = inside;
        laid = λ n. first-Laid;
      })

inside_walls : (p : Position) → hits_wall p ≡ false → on_board p ≡ true
inside_walls p h = ground arith

moved :
    (g : Game) (head : Position) (n : ℕ)
    → g.length ≡ suc n
    → hits_wall head ≡ false
    → has_position head (parts n 0 g.body) ≡ false
    → Laid (parts n 0 g.body)
    → Laid (parts g.length 0 (move g head).body)
moved g head n e wall free l =
    subst (λ m. Laid (parts m 0 (move g head).body)) (sym e)
      (subst Laid (sym (parts-move g head n e)) (inside_walls head wall, free, l))

move-IsValid :
    (g : Game) (head : Position)
    → IsValid g
    → g.state ≡ running
    → hits_wall head ≡ false
    → occupied g.length 0 g.body head ≡ false
    → IsValid (move g head)
move-IsValid g head v r wall free =
    let n : ℕ = g.length - 1 in
    let e : g.length ≡ suc n = omega (arith, v.long) in
    let all : Laid (parts (suc n) 0 g.body) =
      subst (λ m. Laid (parts m 0 g.body)) e (v.laid (λ q. cc (q, r))) in
    let none : has_position head (parts (suc n) 0 g.body) ≡ false =
      ap (λ m. has_position head (parts m 0 g.body)) (sym e)
      ∙ sym (occupied_lem g.length 0 g.body head)
      ∙ free in
    record {
      long = v.long;
      short = v.short;
      food_inside = v.food_inside;
      laid = λ q.
          moved g head n e wall (has_position-parts n 0 g.body head none)
            (Laid-parts n 0 g.body all);
    }

-- A snake that has eaten.
fed-IsValid :
    (g : Game) (head food : Position) (seed : ℕ)
    → IsValid g
    → g.state ≡ running
    → hits_wall head ≡ false
    → occupied g.length 0 g.body head ≡ false
    → on_board food ≡ true
    → let fed : Game = record g {
      score = u32 (g.score + 10);
      length = if ltb g.length max_len then g.length + 1 else g.length;
      food = food;
      rand_seed = seed;
    } in
      IsValid (if leb max_len fed.length then record fed { state = win } else move fed head)
fed-IsValid g head food seed v r wall free inside =
    let fed : Game = record g {
      score = u32 (g.score + 10);
      length = if ltb g.length max_len then g.length + 1 else g.length;
      food = food;
      rand_seed = seed;
    } in
    elim (Bool-cases (leb max_len fed.length)) [
      | inl full ↦ rw full (record {
        long = longer g v;
        short = shorter g v;
        food_inside = inside;
        laid = λ n. absurd (n refl);
      })
      | inr less ↦ rw less (record {
        long = longer g v;
        short = shorter g v;
        food_inside = inside;
        laid = λ n.
            moved fed head g.length (grown g less) wall
              (sym (occupied_lem g.length 0 g.body head) ∙ free) (v.laid (λ q. cc (q, r)));
      })
    ]
  where
    longer : (g : Game) → IsValid g → 3 ≤ (if ltb g.length max_len then g.length + 1 else g.length)
    longer g v = ground (arith, v.long)

    shorter :
        (g : Game) → IsValid g → (if ltb g.length max_len then g.length + 1 else g.length) ≤ max_len
    shorter g v = ground (arith, v.short)

    grown :
        (g : Game)
        → leb max_len (if ltb g.length max_len then g.length + 1 else g.length) ≡ false
        → (if ltb g.length max_len then g.length + 1 else g.length) ≡ suc g.length
    grown g h = ground arith

eat-IsValid :
    (g : Game) (head : Position)
    → IsValid g
    → g.state ≡ running
    → hits_wall head ≡ false
    → occupied g.length 0 g.body head ≡ false
    → IsValid
        (if leb max_len (eat g).length then record (eat g) { state = win } else move (eat g) head)
eat-IsValid g head v r wall free =
    let (f, s, inside, e) =
      spawn_food_lem
        (record g {
          score = u32 (g.score + 10);
          length = if ltb g.length max_len then g.length + 1 else g.length;
        })
        v.food_inside in
    subst
      (λ fed.
        IsValid (if leb max_len fed.length then record fed { state = win } else move fed head))
      (sym e) (fed-IsValid g head f s v r wall free inside)

pick-IsValid : (b : Bool) (g h : Game) → IsValid g → IsValid h → IsValid (if b then g else h)
pick-IsValid true g h v w = v
pick-IsValid false g h v w = w

state-IsValid :
    (g : Game) (state : GameState)
    → IsValid g
    → g.state ≢ win
    → IsValid (record g { state = state })
state-IsValid g state v n = record {
  long = v.long;
  short = v.short;
  food_inside = v.food_inside;
  laid = λ q. v.laid n;
}

direction-IsValid : (g : Game) (d : Direction) → IsValid g → IsValid (record g { direction = d })
direction-IsValid g d v = record {
  long = v.long;
  short = v.short;
  food_inside = v.food_inside;
  laid = v.laid;
}

is_running_lem : (s : GameState) → is_running s ≡ true → s ≡ running
is_running_lem running h = refl
is_running_lem game_over h = absurd (cc h)
is_running_lem win h = absurd (cc h)
is_running_lem paused h = absurd (cc h)

or_false : (a b : Bool) → (a || b) ≡ false → (a ≡ false) × (b ≡ false)
or_false a b h = ground arith

pub update_game-IsValid : (g : Game) → IsValid g → IsValid (update_game g)
unfolding update_game
update_game-IsValid g v =
    let head : Position = new_head g.direction (g.body 0) in
    elim (Bool-cases (is_running g.state)) [
      | inr still ↦ rw (update_game, still) v
      | inl runs ↦
          let r : g.state ≡ running = is_running_lem g.state runs in
          elim (Bool-cases (hits_wall head || occupied g.length 0 g.body head)) [
            | inl hit ↦ rw (update_game, runs, hit) (state-IsValid g game_over v (λ q. cc (q, r)))
            | inr free ↦
                let (wall, clear) =
                  or_false (hits_wall head) (occupied g.length 0 g.body head) free in
                rw (update_game, runs, free)
                  (pick-IsValid (same head g.food)
                    (if leb max_len (eat g).length
                      then record (eat g) { state = win }
                      else move (eat g) head)
                    (move g head) (eat-IsValid g head v r wall clear)
                    (move-IsValid g head v r wall clear))
          ]
    ]

press-IsValid : (g : Game) (key : ℕ) → IsValid g → g.state ≢ win → IsValid (press g key)
press-IsValid g key v n =
    pick-IsValid (key == b'W') _ _ (direction-IsValid g (turn up g.direction) v) (
      pick-IsValid (key == b'S') _ _ (direction-IsValid g (turn down g.direction) v) (
        pick-IsValid (key == b'A') _ _ (direction-IsValid g (turn left g.direction) v) (
          pick-IsValid (key == b'D') _ _ (direction-IsValid g (turn right g.direction) v)
            (pick-IsValid (key == b'P') _ _ (state-IsValid g paused v n) v))))

input_by-IsValid :
    (state : GameState) (g : Game) (key tick : ℕ)
    → g.state ≡ state
    → IsValid g
    → IsValid (input_by state g key tick)
unfolding input_by
input_by-IsValid running g key tick e v = press-IsValid g key v (λ q. cc (q, e))
input_by-IsValid paused g key tick e v =
    pick-IsValid (key == b'P') (record g { state = running }) g
      (state-IsValid g running v (λ q. cc (q, e))) v
input_by-IsValid game_over g key tick e v =
    pick-IsValid (key == b'R') (init tick) g (init-IsValid tick) v
input_by-IsValid win g key tick e v = pick-IsValid (key == b'R') (init tick) g (init-IsValid tick) v

pub input-IsValid : (g : Game) (key tick : ℕ) → IsValid g → IsValid (input g key tick)
unfolding input
input-IsValid g key tick v =
    input_by-IsValid g.state g (if leb b'a' key && leb key b'z' then key - b'a' + b'A' else key)
      tick refl v

-- What the task of the game calls, in any order.
pub data Event : Type 0 where
  step : Event
  pressed : (key tick : ℕ) → Event

pub after : Game → List Event → Game
after g [] = g
after g (step ∷ es) = after (update_game g) es
after g (pressed key tick ∷ es) = after (input g key tick) es

after_keeps : (g : Game) (es : List Event) → IsValid g → IsValid (after g es)
unfolding after
after_keeps g [] v = v
after_keeps g (step ∷ es) v = after_keeps (update_game g) es (update_game-IsValid g v)
after_keeps g (pressed key tick ∷ es) v =
    after_keeps (input g key tick) es (input-IsValid g key tick v)

-- After any steps and keys since the start, the snake has between 3 and 200 parts and the food lies on
-- the board; unless the game is won, all parts lie on the board and no two at one place.
pub after-IsValid : (tick : ℕ) (es : List Event) → IsValid (after (init tick) es)
after-IsValid tick es = after_keeps (init tick) es (init-IsValid tick)
