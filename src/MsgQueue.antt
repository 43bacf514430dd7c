-- ===== src/MsgQueue.antt =====
-- core/smart_msgqueue.c and its header: the non-blocking message queue. Each function masks interrupts
-- for its whole body, so it is one step. A pointer argument that may be `NULL` is an option.
pub mod Inv
pub mod Fifo
pub mod Refine
pub mod Stats
mod Tests
use smart_os.Base.{
  ℕ, ◌+◌, ◌-◌, ◌%◌, ◌≡◌, Bool, true, Option, none, some, List, [], ◌∷◌, ◌++◌, u32, sub_u32, null,
  Ptr, length, leb, ◌==◌, if◌then◌else◌, set, get_or, replicate, drop,
}

-- `smart_msgq_status_t`
pub data Status : Type 0 where
  ok full empty invalid : Status

-- `smart_msg_t`; `datum` is its field `data`.
pub record Msg : Type 0 where
  pub type : ℕ
  pub datum : ℕ
  pub ptr : Ptr

abbrev pub zero_msg : Msg
zero_msg = record { type = 0; datum = 0; ptr = null }

-- `smart_msgqueue_t`; the buffer is the storage that `queue->buffer` points to.
pub record MsgQueue : Type 0 where
  pub buffer : List Msg
  pub capacity : ℕ
  pub count : ℕ
  pub head : ℕ
  pub tail : ℕ
  pub dropped : ℕ

-- `memset(buffer, 0, sizeof(smart_msg_t) * capacity)`
clear : ℕ → List Msg → List Msg
clear n buffer = replicate n zero_msg ++ drop n buffer

-- The queue's old contents are the first argument: an early return leaves them.
unfoldable pub init : Option MsgQueue → Option (List Msg) → ℕ → Option MsgQueue
unfolding clear
init none buffer capacity = none
init (some q) none capacity = some q
init (some q) (some buffer) capacity =
    if capacity == 0
    then some q
    else some (record {
      buffer = clear capacity buffer;
      capacity = capacity;
      count = 0;
      head = 0;
      tail = 0;
      dropped = 0;
    })

-- The body of `smart_msgqueue_send` behind its argument checks.
unfoldable pub push : MsgQueue → Msg → Status × MsgQueue
push q m = if leb q.capacity q.count then (full, record q { dropped = u32 (q.dropped + 1) }) else (
  ok,
  record q {
    buffer = set q.buffer q.tail m;
    tail = u32 (q.tail + 1) % q.capacity;
    count = u32 (q.count + 1);
  },
)

unfoldable pub send : Option MsgQueue → Option Msg → Status × Option MsgQueue
unfolding push
send none m = (invalid, none)
send (some q) none = (invalid, some q)
send (some q) (some m) = let (s, q') = push q m in (s, some q')

-- The body of `smart_msgqueue_receive`; the option is what `*msg` is set to.
unfoldable pub pop : MsgQueue → Status × Option Msg × MsgQueue
pop q = if q.count == 0 then (empty, none, q) else (
  ok,
  some (get_or q.buffer q.head zero_msg),
  record q { head = u32 (q.head + 1) % q.capacity; count = sub_u32 q.count 1 },
)

-- The Boolean says whether `msg` is a pointer that is not `NULL`.
unfoldable pub receive : Option MsgQueue → Bool → Status × Option Msg × Option MsgQueue
unfolding pop
receive none out = (invalid, none, none)
receive (some q) true = let (s, m, q') = pop q in (s, m, some q')
receive (some q) _ = (invalid, none, some q)

unfoldable pub count : Option MsgQueue → ℕ
count none = 0
count (some q) = q.count

unfoldable pub space : Option MsgQueue → ℕ
space none = 0
space (some q) = sub_u32 q.capacity q.count

unfoldable pub is_empty : Option MsgQueue → Bool
is_empty none = true
is_empty (some q) = q.count == 0

pub is_full : Option MsgQueue → Bool
is_full none = true
is_full (some q) = leb q.capacity q.count

-- A client's calls on one queue, in order, with what each returns.
pub data Op : Type 0 where
  put : Msg → Op
  get : Op

pub run : MsgQueue → List Op → List (Status × Option Msg) × MsgQueue
run q [] = ([], q)
run q (put m ∷ ops) = let (s, q') = push q m in let (rs, q'') = run q' ops in ((s, none) ∷ rs, q'')
run q (get ∷ ops) = let (s, m, q') = pop q in let (rs, q'') = run q' ops in ((s, m) ∷ rs, q'')
