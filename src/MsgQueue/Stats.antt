-- ===== src/MsgQueue/Stats.antt =====
-- The drop counter of the message queue.
use smart_os.Base.{ℕ, suc, ◌+◌, ◌^◌, ◌<◌, ◌≡◌, ◌⊎◌, Option, List, [], ◌∷◌, arith, u32}
use smart_os.MsgQueue.{
  MsgQueue, Msg, Status, ok, full, empty, invalid, Op, put, get, push, pop, run,
}

-- How many replies of a history are `full`.
unfoldable pub refused : List (Status × Option Msg) → ℕ
refused [] = 0
refused ((full, m) ∷ rs) = suc (refused rs)
refused ((ok, m) ∷ rs) = refused rs
refused ((empty, m) ∷ rs) = refused rs
refused ((invalid, m) ∷ rs) = refused rs

dropped-push :
    (q : MsgQueue) (m : Msg)
    → ((push q m).0 ≡ full) × ((push q m).1.dropped ≡ u32 (q.dropped + 1))
      ⊎ ((push q m).0 ≡ ok) × ((push q m).1.dropped ≡ q.dropped)
unfolding push
dropped-push q m = ground arith

dropped-pop :
    (q : MsgQueue) → (((pop q).0 ≡ ok) ⊎ ((pop q).0 ≡ empty)) × ((pop q).2.dropped ≡ q.dropped)
unfolding pop
dropped-pop q = ground arith

-- Over any history the drop counter grows by the number of sends that the queue refused, modulo
-- `2 ^ 32`.
pub dropped-run :
    (ops : List Op) (q : MsgQueue)
    → q.dropped < 2 ^ 32
    → (run q ops).1.dropped ≡ u32 (q.dropped + refused (run q ops).0)
unfolding run refused
dropped-run [] q h = omega arith
dropped-run (put m ∷ ops) q h = ground (arith, dropped-push q m, dropped-run ops (push q m).1)
dropped-run (get ∷ ops) q h = ground (arith, dropped-pop q, dropped-run ops (pop q).2)
