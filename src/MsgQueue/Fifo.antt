-- ===== src/MsgQueue/Fifo.antt =====
-- The specification of the message queue: a list of messages with a limit, oldest first.
use smart_os.Base.{ℕ, Option, none, some, List, [], ◌∷◌, ◌++◌, length, leb, if◌then◌else◌}
use smart_os.MsgQueue.{Msg, Status, ok, full, empty, Op, put, get}

unfoldable pub send : ℕ → List Msg → Msg → Status × List Msg
send limit xs m = if leb limit (length xs) then (full, xs) else (ok, xs ++ (m ∷ []))

unfoldable pub receive : List Msg → Status × Option Msg × List Msg
receive [] = (empty, none, [])
receive (x ∷ xs) = (ok, some x, xs)

unfoldable pub run : ℕ → List Msg → List Op → List (Status × Option Msg) × List Msg
run limit xs [] = ([], xs)
run limit xs (put m ∷ ops) =
    let (s, ys) = send limit xs m in let (rs, zs) = run limit ys ops in ((s, none) ∷ rs, zs)
run limit xs (get ∷ ops) =
    let (s, m, ys) = receive xs in let (rs, zs) = run limit ys ops in ((s, m) ∷ rs, zs)
