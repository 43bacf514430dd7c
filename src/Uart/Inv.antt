-- ===== src/Uart/Inv.antt =====
-- The invariant of the receive ring: the writer is always `rx_count` places ahead of the reader.
use smart_os.Base.{
  ℕ, ◌+◌, ◌%◌, ◌^◌, ◌≤◌, ◌<◌, ◌≡◌, List, [], ◌∷◌, true, false, arith, length, length-set, Bool,
  length-replicate,
}
use smart_os.Uart.{Uart, boot, init, getc_nonblock, rx_flush, receive_char, receive_all, handler}

pub record IsValid (u : Uart) : Type 0 where
  pub storage : length u.rx_buffer ≡ 256
  pub tail_in : u.rx_tail < 256
  pub count_in : u.rx_count ≤ 256
  pub head_at : u.rx_head ≡ (u.rx_tail + u.rx_count) % 256

pub boot-IsValid : IsValid boot
boot-IsValid = record {
  storage = length-replicate {A = ℕ} 256 0;
  tail_in = omega arith;
  count_in = omega arith;
  head_at = omega arith;
}

pub init-IsValid : {u : Uart} → IsValid u → IsValid (init u)
unfolding init
init-IsValid v = ground arith

pub getc_nonblock-IsValid : {u : Uart} (c : Bool) → IsValid u → IsValid (getc_nonblock c u).1
unfolding getc_nonblock
getc_nonblock-IsValid false v = v
getc_nonblock-IsValid true v = ground arith

pub rx_flush-IsValid : {u : Uart} → IsValid u → IsValid (rx_flush u)
unfolding rx_flush
rx_flush-IsValid v = ground arith

pub receive_char-IsValid : {u : Uart} (w : ℕ) → IsValid u → IsValid (receive_char u w)
unfolding receive_char
receive_char-IsValid {u} w v = ground (arith, length-set u.rx_buffer u.rx_head (w % 256))

pub receive_all-IsValid : (ws : List ℕ) {u : Uart} → IsValid u → IsValid (receive_all u ws)
unfolding receive_all
receive_all-IsValid [] v = v
receive_all-IsValid (w ∷ ws) v = receive_all-IsValid ws (receive_char-IsValid w v)

-- The interrupt handler keeps the invariant, for every status and every content of the FIFO.
pub handler-IsValid :
    {u : Uart} (status : ℕ) (fifo : List ℕ) → IsValid u → IsValid (handler u status fifo)
unfolding handler
handler-IsValid {u} status fifo v = ground (
  arith,
  receive_all-IsValid fifo
      {u = record u { rx_interrupt_count = (u.rx_interrupt_count + 1) % 2 ^ 32 }},
)
