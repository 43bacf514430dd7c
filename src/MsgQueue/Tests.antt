-- ===== src/MsgQueue/Tests.antt =====
-- Runs of the message queue, and its theorems at a queue whose window goes round the end.
use smart_os.Base.{ℕ, ◌≡◌, refl, none, some, List, [], ◌∷◌, true, arith}
use smart_os.MsgQueue.{
  MsgQueue, Msg, ok, full, empty, invalid, Op, put, get, push, pop, send, receive, run,
}
use smart_os.MsgQueue.Inv.{IsValid}
use smart_os.MsgQueue.Fifo
use smart_os.MsgQueue.Refine.{contents, run_refines}

abbrev msg : ℕ → Msg
msg n = record { type = 1; datum = n; ptr = 0 }

-- 8, then 9, round the end of the storage
abbrev wrapped : MsgQueue
wrapped = record {
  buffer = msg 9 ∷ msg 7 ∷ msg 8 ∷ [];
  capacity = 3;
  count = 2;
  head = 2;
  tail = 1;
  dropped = 0;
}

abbrev script : List Op
script = put (msg 1) ∷ put (msg 2) ∷ get ∷ get ∷ get ∷ get ∷ []

wrapped-IsValid : IsValid wrapped
wrapped-IsValid = omega arith

null_arguments :
    (send none (some (msg 1)) ≡ (invalid, none))
    × (send (some wrapped) none ≡ (invalid, some wrapped))
    × (receive none true ≡ (invalid, none, none))
unfolding send receive
null_arguments = (refl, refl, refl)

replies-script :
    (run wrapped script).0
    ≡ (ok, none)
      ∷ (full, none)
      ∷ (ok, some (msg 8))
      ∷ (ok, some (msg 9))
      ∷ (ok, some (msg 1))
      ∷ (empty, none)
      ∷ []
unfolding run push pop
replies-script = refl

run_refines_example :
    let (rs, q) = run wrapped script in (rs, contents q) ≡ Fifo.run 3 (msg 8 ∷ msg 9 ∷ []) script
run_refines_example = run_refines script wrapped-IsValid
