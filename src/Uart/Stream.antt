-- ===== src/Uart/Stream.antt =====
-- The receive ring as a stream of characters: what the interrupt takes in and what a reader gets.
use smart_os.Base.{
  ℕ, zero, suc, ◌+◌, ◌-◌, ◌%◌, ◌^◌, ◌<◌, ◌≡◌, refl, ap, ◌∙◌, Option, none, some, List, [], ◌∷◌,
  ◌++◌, true, arith, length, set, get_or, take, u32,
}
use mathlib.Core.List.{map, append-nil, append_assoc}
use Prim.Native.Nat.{min}
use native.Mathlib.Decide.{dec_lt}
use smart_os.Base.Ring.{slots, slots-set, slots_advance}
use smart_os.Uart.{Uart, getc_nonblock, receive_char, receive_all}
use smart_os.Uart.Inv.{IsValid, receive_char-IsValid}

-- The characters that wait for a reader, oldest first.
abbrev pub pending : Uart → List ℕ
pending u = slots u.rx_buffer 256 u.rx_tail u.rx_count 0

-- The low byte of each word.
abbrev pub bytes : List ℕ → List ℕ
bytes = map (λ w. w % 256)

module _ {u : Uart} (w : ℕ) (v : IsValid u) where
  pending-set :
      u.rx_count < 256
      → slots (set u.rx_buffer u.rx_head (w % 256)) 256 u.rx_tail ((u.rx_count + 1) % 2 ^ 32) 0
        ≡ pending u ++ (w % 256 ∷ [])
  pending-set room =
      rw (v.head_at, grown)
        (slots-set u.rx_buffer 256 u.rx_tail u.rx_count 0 (w % 256) (omega (arith, v.storage))
          v.tail_in room)
    where
      grown : (u.rx_count + 1) % 2 ^ 32 ≡ suc u.rx_count
      grown = omega arith

  -- A character for which there is room is stored behind the others.
  receive_char_fits :
      u.rx_count < 256
      → (pending (receive_char u w) ≡ pending u ++ (w % 256 ∷ []))
        × ((receive_char u w).rx_count ≡ suc u.rx_count)
        × ((receive_char u w).rx_overflow_count ≡ u.rx_overflow_count)
  unfolding receive_char
  receive_char_fits room = ground (arith, pending-set)

  -- Another is counted as lost.
  receive_char_full :
      u.rx_count ≡ 256
      → (pending (receive_char u w) ≡ pending u)
        × ((receive_char u w).rx_count ≡ 256)
        × ((receive_char u w).rx_overflow_count ≡ u32 (u.rx_overflow_count + 1))
  unfolding receive_char
  receive_char_full e = ground arith

take_nil : (n : ℕ) → take {A = ℕ} n [] ≡ []
take_nil zero = refl
take_nil (suc n) = refl

take_none : (n : ℕ) (xs : List ℕ) → n ≡ 0 → take n xs ≡ []
take_none n xs e = rw e

take_more : (n : ℕ) (x : ℕ) (xs : List ℕ) → 0 < n → take n (x ∷ xs) ≡ x ∷ take (n - 1) xs
take_more zero x xs h = absurd (omega arith)
take_more (suc n) x xs h = ap (λ k. x ∷ take k xs) (omega arith)

-- The handler's loop puts the characters that fit behind those that wait, in order, loses the rest,
-- and counts each lost one, modulo `2 ^ 32`.
pub receive_all_lem :
    (ws : List ℕ) {u : Uart}
    → IsValid u
    → u.rx_overflow_count < 2 ^ 32
    → let u' = receive_all u ws in
      (pending u' ≡ pending u ++ take (256 - u.rx_count) (bytes ws))
      × (u'.rx_count ≡ min 256 (u.rx_count + length ws))
      × (u'.rx_overflow_count ≡ u32 (u.rx_overflow_count + (u.rx_count + length ws - 256)))
unfolding receive_all
receive_all_lem [] {u} v h = (rw (take_nil, append-nil) refl, omega arith, omega arith)
receive_all_lem (w ∷ ws) {u} v h = elim (dec_lt u.rx_count 256) [
  | yes room ↦ ground (
    arith,
    receive_char_fits w v room,
    receive_all_lem ws (receive_char-IsValid w v),
    take_more (256 - u.rx_count) (w % 256) (bytes ws),
    append_assoc (pending u) (w % 256 ∷ []) (take (256 - u.rx_count - 1) (bytes ws)),
  )
  | no more ↦ ground (
    arith,
    receive_char_full w v,
    receive_all_lem ws (receive_char-IsValid w v),
    take_none (256 - u.rx_count) (bytes ws),
    take_none (256 - u.rx_count) (bytes (w ∷ ws)),
  )
]

-- What a reader of a list of characters gets, and what it leaves.
unfoldable pub next_char : List ℕ → Option ℕ × List ℕ
next_char [] = (none, [])
next_char (c ∷ rest) = (some c, rest)

pending-nil : (u : Uart) → u.rx_count ≡ 0 → pending u ≡ []
pending-nil u e = ap (λ n. slots u.rx_buffer 256 u.rx_tail n 0) e

pending-cons :
    {u : Uart}
    → IsValid u
    → 0 < u.rx_count
    → pending u
      ≡ get_or u.rx_buffer u.rx_tail 0
        ∷ slots u.rx_buffer 256
            ((u.rx_tail + 1) % 2 ^ 32 % 256)
            ((u.rx_count + 2 ^ 32 - 1) % 2 ^ 32)
            0
pending-cons {u} v some_wait =
    ap (λ n. slots u.rx_buffer 256 u.rx_tail n 0) held
    ∙ slots_advance u.rx_buffer 256 u.rx_tail left 0 v.tail_in
    ∙ ap (λ t. get_or u.rx_buffer u.rx_tail 0 ∷ slots u.rx_buffer 256 (t % 256) left 0) next
  where
    left : ℕ
    left = (u.rx_count + 2 ^ 32 - 1) % 2 ^ 32

    held : u.rx_count ≡ suc left
    held = omega arith

    next : u.rx_tail + 1 ≡ (u.rx_tail + 1) % 2 ^ 32
    next = omega (arith, v.tail_in)

-- A reader gets the oldest waiting character and leaves the others, and gets nothing exactly when
-- none waits.
pub getc_nonblock_lem :
    {u : Uart}
    → IsValid u
    → let (c, u') = getc_nonblock true u in (c, pending u') ≡ next_char (pending u)
unfolding getc_nonblock next_char
getc_nonblock_lem {u} v = ground (arith, pending-nil u, pending-cons v)
