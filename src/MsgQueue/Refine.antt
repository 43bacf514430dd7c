-- ===== src/MsgQueue/Refine.antt =====
-- The queue refines a bounded first-in first-out list of messages.
use smart_os.Base.{
  ℕ, suc, ◌+◌, ◌-◌, ◌%◌, ◌^◌, ◌<◌, ◌≡◌, refl, ap, ◌∙◌, List, [], ◌∷◌, ◌++◌, arith, length, get_or,
  set,
}
use smart_os.Base.Ring.{slots, slots-set, slots_advance, length-tabulate}
use smart_os.MsgQueue.{MsgQueue, Msg, zero_msg, Op, put, get, push, pop, run}
use smart_os.MsgQueue.Fifo
use smart_os.MsgQueue.Inv.{IsValid, push-IsValid, pop-IsValid, capacity-push, capacity-pop}

-- The messages that a queue holds, oldest first.
abbrev pub contents : MsgQueue → List Msg
contents q = slots q.buffer q.capacity q.head q.count zero_msg

pub length-contents : (q : MsgQueue) → length (contents q) ≡ q.count
length-contents q = length-tabulate q.count _

-- A push that finds room puts the message behind what the queue holds.
contents-push :
    {q : MsgQueue} (m : Msg)
    → IsValid q
    → q.count < q.capacity
    → slots (set q.buffer q.tail m) q.capacity q.head ((q.count + 1) % 2 ^ 32) zero_msg
      ≡ contents q ++ (m ∷ [])
contents-push {q} m v room =
    rw (v.tail_at, grown)
      (slots-set q.buffer q.capacity q.head q.count zero_msg m v.storage v.head_in room)
  where
    grown : (q.count + 1) % 2 ^ 32 ≡ suc q.count
    grown = omega (arith, v.count_in, v.small)

contents-nil : (q : MsgQueue) → q.count ≡ 0 → contents q ≡ []
contents-nil q e = ap (λ n. slots q.buffer q.capacity q.head n zero_msg) e

-- A pop of a queue that is not empty leaves all but the oldest message.
contents-pop :
    {q : MsgQueue}
    → IsValid q
    → 0 < q.count
    → contents q
      ≡ get_or q.buffer q.head zero_msg
        ∷ slots q.buffer q.capacity
            ((q.head + 1) % 2 ^ 32 % q.capacity)
            ((q.count + 2 ^ 32 - 1) % 2 ^ 32)
            zero_msg
contents-pop {q} v some_held =
    ap (λ n. slots q.buffer q.capacity q.head n zero_msg) held
    ∙ slots_advance q.buffer q.capacity q.head left zero_msg v.head_in
    ∙ ap
        (λ h.
          get_or q.buffer q.head zero_msg
          ∷ slots q.buffer q.capacity (h % q.capacity) left zero_msg)
        next
  where
    left : ℕ
    left = (q.count + 2 ^ 32 - 1) % 2 ^ 32

    held : q.count ≡ suc left
    held = omega (arith, v.count_in, v.small)

    next : q.head + 1 ≡ (q.head + 1) % 2 ^ 32
    next = omega (arith, v.head_in, v.small)

-- The status of `smart_msgqueue_send` and the messages then held are those of `Fifo.send`.
pub push_refines :
    {q : MsgQueue} (m : Msg)
    → IsValid q
    → let (s, q') = push q m in (s, contents q') ≡ Fifo.send q.capacity (contents q) m
unfolding push Fifo.send
push_refines {q} m v = rw (length-contents q) (ground (arith, contents-push m v))

-- The status and message of `smart_msgqueue_receive` and the messages then held are those of
-- `Fifo.receive`.
pub pop_refines :
    {q : MsgQueue}
    → IsValid q
    → let (s, m, q') = pop q in (s, m, contents q') ≡ Fifo.receive (contents q)
unfolding pop Fifo.receive
pop_refines {q} v = ground (arith, contents-nil q, contents-pop v)

-- No history of sends and receives tells a valid queue from the list of what it holds with the
-- queue's capacity for its limit: every status and every message received is the same, and so is
-- what is held at the end.
pub run_refines :
    (ops : List Op) {q : MsgQueue}
    → IsValid q
    → let (rs, q') = run q ops in (rs, contents q') ≡ Fifo.run q.capacity (contents q) ops
unfolding run Fifo.run
run_refines [] v = refl
run_refines (put m ∷ ops) {q} v =
    let ih = run_refines ops (push-IsValid m v) in
    ground (arith, ih, push_refines m v, capacity-push q m)
run_refines (get ∷ ops) {q} v =
    let ih = run_refines ops (pop-IsValid v) in ground (arith, ih, pop_refines v, capacity-pop q)
