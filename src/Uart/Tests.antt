-- ===== src/Uart/Tests.antt =====
-- Runs of the UART driver, and its theorems at a ring whose window goes round the end.
use Prim.Native.Nat.{min}
use smart_os.Base.{◌+◌, ◌-◌, ◌≡◌, refl, [], ◌∷◌, ◌++◌, arith, replicate, set, take, u32}
use smart_os.Uart.{Uart, boot, receive_all, handler, print_hex32}
use smart_os.Uart.Inv.{IsValid}
use smart_os.Uart.Stream.{pending, bytes, receive_all_lem}

-- 7 and 8 wait, round the end of the storage.
abbrev wrapped : Uart
wrapped = record boot {
  rx_buffer = set (set (replicate 256 0) 255 7) 0 8;
  rx_head = 1;
  rx_tail = 255;
  rx_count = 2;
}

wrapped-IsValid : IsValid wrapped
wrapped-IsValid = record {
  storage = refl;
  tail_in = omega arith;
  count_in = omega arith;
  head_at = refl;
}

hex_runs : print_hex32 0xbeef ≡ b'0' ∷ b'0' ∷ b'0' ∷ b'0' ∷ b'B' ∷ b'E' ∷ b'E' ∷ b'F' ∷ []
unfolding print_hex32
hex_runs = refl

-- A status without the two receive bits leaves the FIFO alone.
handler_ignores : (handler wrapped 1 (9 ∷ [])) ≡ wrapped
unfolding handler
handler_ignores = refl

receive_all_lem_example :
    let u = receive_all wrapped (65 ∷ 322 ∷ []) in
    (pending u ≡ pending wrapped ++ take 254 (bytes (65 ∷ 322 ∷ [])))
    × (u.rx_count ≡ min 256 4)
    × (u.rx_overflow_count ≡ u32 (0 + (4 - 256)))
receive_all_lem_example = receive_all_lem (65 ∷ 322 ∷ []) wrapped-IsValid (omega arith)
