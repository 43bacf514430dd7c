-- ===== src/Uart/Hex.antt =====
-- `smart_uart_print_hex32` is undone by reading the digits.
use smart_os.Base.{
  ℕ, ◌+◌, ◌-◌, ◌*◌, ◌/◌, ◌%◌, ◌^◌, ◌<◌, ◌≡◌, refl, List, [], ◌∷◌, arith, ltb, length, if◌then◌else◌,
}
use smart_os.Uart.{hex_digit, print_hex32}

-- The value of an upper-case hexadecimal digit.
unfoldable pub digit_value : ℕ → ℕ
digit_value c = if ltb c b'A' then c - b'0' else c + 10 - b'A'

-- The number that a line of digits stands for, behind the digits read so far.
unfoldable pub read_hex : ℕ → List ℕ → ℕ
unfolding digit_value
read_hex acc [] = acc
read_hex acc (c ∷ cs) = read_hex (acc * 16 + digit_value c) cs

digit_value-hex_digit : (n : ℕ) → n < 16 → digit_value (hex_digit n) ≡ n
unfolding digit_value hex_digit
digit_value-hex_digit n h = ground arith

nibble : (v p : ℕ) → digit_value (hex_digit (v / p % 16)) ≡ v / p % 16
nibble v p = digit_value-hex_digit (v / p % 16) (omega arith)

-- The eight digits that `smart_uart_print_hex32` prints for a 32-bit value read back as that value.
pub read_hex-print_hex32 :
    (v : ℕ) → v < 2 ^ 32 → (read_hex 0 (print_hex32 v) ≡ v) × (length (print_hex32 v) ≡ 8)
unfolding print_hex32 read_hex
read_hex-print_hex32 v h = (simp nibble (omega arith), refl)
