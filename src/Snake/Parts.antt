-- ===== src/Snake/Parts.antt =====
-- The snake as a list of positions, and what a move and new food do.
use smart_os.Base.{
  ℕ, zero, suc, ◌+◌, ◌-◌, ◌%◌, ◌<◌, ◌≡◌, refl, ap, ap₂, ◌∙◌, inl, inr, Bool, true, false, ◌||◌,
  ◌&&◌, List, [], ◌∷◌, ltb, leb, ◌==◌, if◌then◌else◌, arith, Bool-cases,
}
use smart_os.Base.Chain.{update}
use smart_os.Snake.{
  Position, Game, width, height, next_seed, rand_of, same, occupied, spawn, spawn_food, shift, move,
}

-- The positions of the snake, the head first.
abbrev pub parts : ℕ → ℕ → (ℕ → Position) → List Position
parts zero i body = []
parts (suc n) i body = body i ∷ parts n (i + 1) body

abbrev pub has_position : Position → List Position → Bool
has_position p [] = false
has_position p (q ∷ qs) = same q p || has_position p qs

abbrev pub on_board : Position → Bool
on_board p = ltb p.x width && ltb p.y height

-- On the board, and no two at one place.
abbrev pub Laid : List Position → Type 0
Laid [] = Unit
Laid (p ∷ ps) = (on_board p ≡ true) × (has_position p ps ≡ false) × Laid ps

pub occupied_lem :
    (n i : ℕ) (body : ℕ → Position) (p : Position)
    → occupied n i body p ≡ has_position p (parts n i body)
unfolding occupied
occupied_lem zero i body p = refl
occupied_lem (suc n) i body p = ap (λ b. same (body i) p || b) (occupied_lem n (i + 1) body p)

shift_lem :
    (n : ℕ) (body : ℕ → Position) (k : ℕ)
    → shift n body k ≡ (if leb 1 k && leb k n then body (k - 1) else body k)
unfolding shift
shift_lem zero body k = ground arith
shift_lem (suc n) body k =
    shift_lem n (update body (suc n) (body n)) k ∙ ground (arith, ap body {x = k - 1} {y = n})

parts_same :
    (n i j : ℕ) (f g : ℕ → Position)
    → ((k : ℕ) → k < n → f (i + k) ≡ g (j + k))
    → parts n i f ≡ parts n j g
parts_same zero i j f g h = refl
parts_same (suc n) i j f g h =
    ap₂ ◌∷◌
      (ap f {x = i} {y = i + 0} (omega arith)
        ∙ h 0 (omega arith)
        ∙ ap g {x = j + 0} {y = j} (omega arith))
      (parts_same n (i + 1) (j + 1) f g (λ k l.
        ap f {x = i + 1 + k} {y = i + suc k} (omega arith)
        ∙ h (suc k) (omega arith)
        ∙ ap g {x = j + suc k} {y = j + 1 + k} (omega arith)))

-- A move puts the new head in front, and drops the last part.
pub parts-move :
    (g : Game) (head : Position) (n : ℕ)
    → g.length ≡ suc n
    → parts (suc n) 0 (move g head).body ≡ head ∷ parts n 0 g.body
parts-move g head n e =
    ap (λ r. head ∷ r)
      (parts_same n 1 0 (update (shift (g.length - 1) g.body) 0 head) g.body (λ k l.
        ap (λ b. if b then head else shift (g.length - 1) g.body (1 + k)) {x = 0 == 1 + k}
          {y = false} (ground arith)
        ∙ shift_lem (g.length - 1) g.body (1 + k)
        ∙ ground (arith, ap g.body {x = 1 + k - 1} {y = 0 + k})))

-- Without its last part.
pub has_position-parts :
    (n i : ℕ) (body : ℕ → Position) (p : Position)
    → has_position p (parts (suc n) i body) ≡ false
    → has_position p (parts n i body) ≡ false
has_position-parts zero i body p h = refl
has_position-parts (suc n) i body p h = ground (arith, has_position-parts n (i + 1) body p)

pub Laid-parts :
    (n i : ℕ) (body : ℕ → Position) → Laid (parts (suc n) i body) → Laid (parts n i body)
Laid-parts zero i body l = tt
Laid-parts (suc n) i body (a, b, c) =
    (a, has_position-parts n (i + 1) body (body i) b, Laid-parts n (i + 1) body c)

-- Food changes the food and the seed only, and lies on the board.
spawn_lem :
    (n : ℕ) (g : Game)
    → on_board g.food ≡ true
    → (food : Position) × (seed : ℕ) × (on_board food ≡ true)
      × (spawn n g ≡ record g { food = food; rand_seed = seed })
unfolding spawn
spawn_lem zero g h = (g.food, g.rand_seed, h, refl)
spawn_lem (suc n) g h =
    let seed_x : ℕ = next_seed g.rand_seed in
    let seed_y : ℕ = next_seed seed_x in
    let food : Position = record { x = rand_of seed_x % width; y = rand_of seed_y % height } in
    let inside : on_board food ≡ true = ground arith in
    let (f, s, ok, e) = spawn_lem n (record g { food = food; rand_seed = seed_y }) inside in
    elim (Bool-cases (occupied g.length 0 g.body food)) [
      | inl taken ↦ (f, s, ok, rw (spawn, taken) e)
      | inr clear ↦ (food, seed_y, inside, rw (spawn, clear) refl)
    ]

pub spawn_food_lem :
    (g : Game)
    → on_board g.food ≡ true
    → (food : Position) × (seed : ℕ) × (on_board food ≡ true)
      × (spawn_food g ≡ record g { food = food; rand_seed = seed })
unfolding spawn_food
spawn_food_lem g h = spawn_lem 100 g h
