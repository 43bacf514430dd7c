-- ===== src/Uart.antt =====
-- drivers/smart_uart.c: the receive side of the UART driver, a ring of 256 characters that the
-- interrupt handler fills and `smart_uart_getc_nonblock` empties, and the hexadecimal printer.
pub mod Inv
pub mod Stream
pub mod Hex
mod Tests
use smart_os.Base.{
  ℕ, zero, suc, ◌+◌, ◌-◌, ◌*◌, ◌/◌, ◌%◌, ◌^◌, Bool, true, false, Option, none, some, List, [], ◌∷◌,
  ltb, ◌==◌, ◌||◌, if◌then◌else◌, set, get_or, replicate, u32, sub_u32, not,
}

abbrev pub rx_buffer_size : ℕ
rx_buffer_size = 256

-- The static variables of the driver.
pub record Uart : Type 0 where
  pub rx_buffer : List ℕ
  pub rx_head : ℕ
  pub rx_tail : ℕ
  pub rx_count : ℕ
  pub rx_interrupt_count : ℕ
  pub rx_char_count : ℕ
  pub rx_overflow_count : ℕ
  pub uart_initialized : Bool

-- What the loader leaves: zeroed statics.
abbrev pub boot : Uart
boot = record {
  rx_buffer = replicate 256 0;
  rx_head = 0;
  rx_tail = 0;
  rx_count = 0;
  rx_interrupt_count = 0;
  rx_char_count = 0;
  rx_overflow_count = 0;
  uart_initialized = false;
}

-- `smart_uart_init`, less the writes to device registers.
pub init : Uart → Uart
init u = if u.uart_initialized then u else record u {
  rx_head = 0;
  rx_tail = 0;
  rx_count = 0;
  rx_interrupt_count = 0;
  rx_char_count = 0;
  rx_overflow_count = 0;
  uart_initialized = true;
}

pub input_available : Uart → Bool
input_available u = ltb 0 u.rx_count

-- The Boolean says whether `c` is not `NULL`. The option is what `*c` is set to; the function
-- returns 1 exactly when it is set.
pub getc_nonblock : Bool → Uart → Option ℕ × Uart
getc_nonblock false u = (none, u)
getc_nonblock true u = if u.rx_count == 0 then (none, u) else (
  some (get_or u.rx_buffer u.rx_tail 0),
  record u { rx_tail = u32 (u.rx_tail + 1) % rx_buffer_size; rx_count = sub_u32 u.rx_count 1 },
)

pub rx_count : Uart → ℕ
rx_count u = u.rx_count

-- `smart_uart_get_stats`: what is written to `*int_count`, `*char_count` and `*overflow_count`, where the Boolean says
-- that the pointer is not `NULL`.
pub get_stats : Bool → Bool → Bool → Uart → Option ℕ × Option ℕ × Option ℕ
get_stats int_count char_count overflow_count u = (
  if int_count then some u.rx_interrupt_count else none,
  if char_count then some u.rx_char_count else none,
  if overflow_count then some u.rx_overflow_count else none,
)

pub rx_flush : Uart → Uart
rx_flush u = record u { rx_head = 0; rx_tail = 0; rx_count = 0 }

-- One round of the handler's loop: `word` is what the data register gives.
pub receive_char : Uart → ℕ → Uart
receive_char u word =
    let ch = word % 256 in
    let v = record u { rx_char_count = u32 (u.rx_char_count + 1) } in
    if ltb v.rx_count rx_buffer_size
    then record v {
      rx_buffer = set v.rx_buffer v.rx_head ch;
      rx_head = u32 (v.rx_head + 1) % rx_buffer_size;
      rx_count = u32 (v.rx_count + 1);
    }
    else record v { rx_overflow_count = u32 (v.rx_overflow_count + 1) }

-- The loop over what the receive FIFO holds until its flag says empty.
pub receive_all : Uart → List ℕ → Uart
unfolding receive_char
receive_all u [] = u
receive_all u (w ∷ ws) = receive_all (receive_char u w) ws

-- `status & (1 << k)`
abbrev pub has_bit : ℕ → ℕ → Bool
has_bit status k = status / 2 ^ k % 2 == 1

-- `UART0_Handler`: `status` is the masked interrupt status and the list what the FIFO holds.
pub handler : Uart → (status : ℕ) → List ℕ → Uart
unfolding receive_all
handler u status fifo =
    if has_bit status 4 || has_bit status 6
    then receive_all (record u { rx_interrupt_count = u32 (u.rx_interrupt_count + 1) }) fifo
    else u

-- `smart_uart_print_hex32`: the digit for a nibble, and the loop over the shifts 28, 24, ... 0.
pub hex_digit : ℕ → ℕ
hex_digit nibble = if ltb nibble 10 then b'0' + nibble else b'A' + nibble - 10

-- `n` rounds are left, so the shift is `4 * (n - 1)`.
pub hex_loop : ℕ → ℕ → List ℕ
unfolding hex_digit
hex_loop zero value = []
hex_loop (suc n) value = hex_digit (value / 2 ^ (4 * n) % 16) ∷ hex_loop n value

pub print_hex32 : ℕ → List ℕ
unfolding hex_loop
print_hex32 value = hex_loop 8 value
