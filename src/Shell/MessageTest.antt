-- ===== src/Shell/MessageTest.antt =====
-- `cmd_msgtest`, which drives a message queue of eight places. `queue` is the static queue with what an earlier run
-- left in it, `msg_buffer` its storage, and `msg` what a local message holds before it is written.
use smart_os.Base.{
  ℕ, zero, suc, ◌+◌, ◌*◌, ◌≡◌, refl, Bool, true, false, Option, none, some, List, [], ◌∷◌, ◌++◌,
  null, if◌then◌else◌,
}
use smart_os.MsgQueue.{Status, ok, full, empty, invalid, Msg, MsgQueue}
use smart_os.MsgQueue as Queue
use smart_os.Shell.Console.{Output, print, hex, Exit, success}

abbrev is_ok : Status → Bool
is_ok ok = true
is_ok full = false
is_ok empty = false
is_ok invalid = false

-- The loops: `n` rounds from index `i`, and the outputs of all.
pub rounds :
    (ℕ → Option MsgQueue → List Output × Option MsgQueue)
    → ℕ
    → ℕ
    → Option MsgQueue
    → List Output × Option MsgQueue
rounds round zero i queue = ([], queue)
rounds round (suc n) i queue =
    let (out, queue) = round i queue in
    let (rest, queue) = rounds round n (i + 1) queue in (out ++ rest, queue)

pub send_round : ℕ → Option MsgQueue → List Output × Option MsgQueue
send_round i queue =
    let msg : Msg = record { type = 0x100 + i; datum = i * 10; ptr = null } in
    let (status, queue) = Queue.send queue (some msg) in
    (
      print "   Msg "
          ∷ hex i
          ∷ print ": type=0x"
          ∷ hex msg.type
          ∷ print ", data="
          ∷ hex msg.datum
          ∷ print " -> "
          ∷ print (if is_ok status then "OK" else "FAIL")
          ∷ print "\n"
          ∷ [],
      queue,
    )

abbrev received : Option Msg → Msg → Msg
received none msg = msg
received (some m) msg = m

pub receive_round : Msg → ℕ → Option MsgQueue → List Output × Option MsgQueue
receive_round msg i queue =
    let (status, out, queue) = Queue.receive queue true in
    let msg = received out msg in
    (
      print "   Received: type=0x"
          ∷ hex msg.type
          ∷ print ", data="
          ∷ hex msg.datum
          ∷ print " -> "
          ∷ print (if is_ok status then "OK" else "EMPTY")
          ∷ print "\n"
          ∷ [],
      queue,
    )

-- The loop of the fourth part: `success`, `failed` and the queue.
pub fill : ℕ → ℕ → ℕ → ℕ → Option MsgQueue → ℕ × ℕ × Option MsgQueue
fill zero i succeeded failed queue = (succeeded, failed, queue)
fill (suc n) i succeeded failed queue =
    let (status, queue) =
      Queue.send queue (some (record { type = 0x200 + i; datum = i; ptr = null })) in
    let good = is_ok status in
    fill n (i + 1) (if good then succeeded + 1 else succeeded) (if good then failed else failed + 1)
      queue

-- The loop of the fifth part, which takes a message out in each round: `drained` and the queue.
pub drain : ℕ → ℕ → Option MsgQueue → ℕ × Option MsgQueue
drain zero drained queue = (drained, queue)
drain (suc fuel) drained queue =
    let (_, _, next) = Queue.receive queue true in
    let rest = drain fuel (drained + 1) next in
    if Queue.is_empty queue then (drained, queue) else rest

abbrev counts : Option MsgQueue → List Output
counts queue =
    print "   Count: "
    ∷ hex (Queue.count queue)
    ∷ print ", Space: "
    ∷ hex (Queue.space queue)
    ∷ print "\n\n"
    ∷ []

abbrev dropped : Option MsgQueue → ℕ
dropped none = 0
dropped (some q) = q.dropped

pub cmd_msgtest : MsgQueue → List Msg → Msg → List Output × Exit
unfolding rounds send_round receive_round fill drain
cmd_msgtest queue msg_buffer msg =
    let q₀ = Queue.init (some queue) (some msg_buffer) 8 in
    let (sent, q₁) = rounds send_round 5 0 q₀ in
    let (got, q₂) = rounds (receive_round msg) 3 0 q₁ in
    let (succeeded, failed, q₃) = fill 10 0 0 0 q₂ in
    let (drained, q₄) = drain 8 0 q₃ in
    (
      print "\n=== Message Queue Test ===\n\n"
            ∷ print "1. Queue initialized (capacity=8)\n"
            ∷ counts q₀
          ++ print "2. Sending 5 messages...\n" ∷ sent
          ++ (counts q₁
              ++ print "3. Receiving 3 messages...\n" ∷ got
              ++ (counts q₂
                  ++ print "4. Testing queue full (sending 10 messages)...\n"
                    ∷ print "   Success: "
                    ∷ hex succeeded
                    ∷ print ", Failed: "
                    ∷ hex failed
                    ∷ print " (queue full)\n"
                    ∷ print "   Dropped: "
                    ∷ hex (dropped q₃)
                    ∷ print "\n\n"
                    ∷ print "5. Draining queue...\n"
                    ∷ print "   Drained "
                    ∷ hex drained
                    ∷ print " messages\n"
                    ∷ print "   Queue is now "
                    ∷ print (if Queue.is_empty q₄ then "EMPTY" else "NOT EMPTY")
                    ∷ print "\n\n"
                    ∷ print "=== Test Complete ===\n\n"
                    ∷ [])),
      success,
    )

-- Whatever an earlier run left: five messages are sent, three received, six more fit and four do not, and all
-- eight are drained.
pub cmd_msgtest_lem :
    (queue : MsgQueue) (msg_buffer : List Msg)
    → let q₀ = Queue.init (some queue) (some msg_buffer) 8 in
      let q₁ = (rounds send_round 5 0 q₀).1 in
      (msg : Msg)
      → let q₂ = (rounds (receive_round msg) 3 0 q₁).1 in
        let (succeeded, failed, q₃) = fill 10 0 0 0 q₂ in
        let (drained, q₄) = drain 8 0 q₃ in
        (Queue.count q₁ ≡ 5)
        × (Queue.count q₂ ≡ 2)
        × (succeeded ≡ 6)
        × (failed ≡ 4)
        × (dropped q₃ ≡ 4)
        × (drained ≡ 8)
        × (Queue.is_empty q₄ ≡ true)
unfolding rounds send_round receive_round fill drain Queue.init Queue.send Queue.receive Queue.count
    Queue.is_empty
cmd_msgtest_lem queue msg_buffer msg = (refl, refl, refl, refl, refl, refl, refl)
