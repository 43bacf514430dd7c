-- ===== src/MsgQueue/Inv.antt =====
-- The representation invariant of `smart_msgqueue_t`, and that each function keeps it.
use smart_os.Base.{
  ℕ, ◌+◌, ◌-◌, ◌%◌, ◌^◌, ◌≤◌, ◌<◌, ◌≡◌, some, List, [], ◌∷◌, ◌++◌, ◌↔◌, ap, ◌∙◌, true, arith,
  length, length-set, length-append, length-replicate, drop, replicate,
}
use native.Mathlib.Nat.{mod-add-mod}
use smart_os.MsgQueue.{
  MsgQueue, Msg, zero_msg, Op, put, get, init, push, pop, run, count, space, is_empty, is_full,
}

pub record IsValid (q : MsgQueue) : Type 0 where
  pub storage : q.capacity ≤ length q.buffer
  pub small : q.capacity < 2 ^ 32
  pub head_in : q.head < q.capacity
  pub count_in : q.count ≤ q.capacity
  pub tail_at : q.tail ≡ (q.head + q.count) % q.capacity

-- The cleared buffer has at least the cleared places.
length-clear : (xs : List Msg) (k : ℕ) → k ≤ length (replicate k zero_msg ++ drop k xs)
length-clear xs k =
    omega (arith, length-append (replicate k zero_msg) (drop k xs), length-replicate k zero_msg)

-- The tail that `push` computes is the place behind the new window.
next_tail : (h c n : ℕ) → h < n → n < 2 ^ 32 → (((h + c) % n + 1) % 2 ^ 32) % n ≡ (h + (c + 1)) % n
next_tail h c n hh hn =
    ap (λ x. x % n) (small ((h + c) % n) (omega arith))
    ∙ rw mod-add-mod (ap (λ x. x % n) (omega arith))
  where
    small : (x : ℕ) → x < n → (x + 1) % 2 ^ 32 ≡ x + 1
    small x l = omega arith

-- A queue that `smart_msgqueue_init` sets up is valid and empty, and has dropped nothing.
pub init-IsValid :
    (old : MsgQueue) (buffer : List Msg) (capacity : ℕ) {q : MsgQueue}
    → 0 < capacity
    → capacity < 2 ^ 32
    → init (some old) (some buffer) capacity ≡ some q
    → IsValid q × (q.count ≡ 0) × (q.dropped ≡ 0) × (q.capacity ≡ capacity)
unfolding init
init-IsValid old buffer capacity pos small e = ground (arith, length-clear buffer capacity)

-- `smart_msgqueue_send` keeps the invariant, whether the queue is full or not.
pub push-IsValid : {q : MsgQueue} (m : Msg) → IsValid q → IsValid (push q m).1
unfolding push
push-IsValid {q} m v =
    ground (arith, length-set q.buffer q.tail m, next_tail q.head q.count q.capacity)

-- The tail stays where it is when the head moves on.
tail_kept :
    (h c n : ℕ) → h < n → 0 < c → n < 2 ^ 32 → (h + c) % n ≡ (((h + 1) % 2 ^ 32) % n + (c - 1)) % n
tail_kept h c n hh hc hn = rw (small, mod-add-mod) (ap (λ x. x % n) (omega arith))
  where
    small : (h + 1) % 2 ^ 32 ≡ h + 1
    small = omega arith

-- `smart_msgqueue_receive` keeps the invariant, whether the queue is empty or not.
pub pop-IsValid : {q : MsgQueue} → IsValid q → IsValid (pop q).2
unfolding pop
pop-IsValid {q} v = ground (arith, tail_kept q.head q.count q.capacity)

pub capacity-push : (q : MsgQueue) (m : Msg) → (push q m).1.capacity ≡ q.capacity
unfolding push
capacity-push q m = ground arith

pub capacity-pop : (q : MsgQueue) → (pop q).2.capacity ≡ q.capacity
unfolding pop
capacity-pop q = ground arith

-- Every history of calls keeps the invariant.
pub run-IsValid : (ops : List Op) {q : MsgQueue} → IsValid q → IsValid (run q ops).1
unfolding run
run-IsValid [] v = v
run-IsValid (put m ∷ ops) v = run-IsValid ops (push-IsValid m v)
run-IsValid (get ∷ ops) v = run-IsValid ops (pop-IsValid v)

-- The four queries agree: what is held and what is left make up the capacity, the queue is empty
-- exactly when it holds nothing, and full exactly when nothing is left.
pub queries_agree :
    {q : MsgQueue}
    → IsValid q
    → (count (some q) + space (some q) ≡ q.capacity)
      × ((is_empty (some q) ≡ true) ↔ (count (some q) ≡ 0))
      × ((is_full (some q) ≡ true) ↔ (space (some q) ≡ 0))
unfolding count space is_empty is_full
queries_agree v = ground arith
