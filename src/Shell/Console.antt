-- ===== src/Shell/Console.antt =====
-- What a command of the shell prints, call by call, and what it returns.
use Prim.Native.String.{String}
use smart_os.Base.{ℕ, List, [], ◌∷◌, ◌++◌}

-- A call of `smart_uart_print`, of `smart_uart_print_hex32` or of `smart_uart_putc`. The text of `print` is a
-- literal of the source; what is not one, an argument or a buffer, goes to `print_bytes`.
pub data Output : Type 0 where
  print : String → Output
  print_bytes : List ℕ → Output
  hex putc : ℕ → Output

-- What a command returns: 0, or -1.
pub data Exit : Type 0 where
  success failure : Exit

-- The outputs of the rounds of a loop, one behind the other.
unfoldable pub for_each : {A : Type 0} → (A → List Output) → List A → List Output
for_each f [] = []
for_each f (x ∷ xs) = f x ++ for_each f xs
