-- ===== src/Base/Words.antt =====
-- Machine words: a `uint32_t` is a number, and each operation that can wrap says so.
use Prim.Native.Nat.{ℕ, ◌+◌, ◌-◌, ◌%◌, ◌^◌}

abbrev pub u32_mod : ℕ
u32_mod = 2 ^ 32

abbrev pub u32 : ℕ → ℕ
u32 n = n % 2 ^ 32

abbrev pub u16 : ℕ → ℕ
u16 n = n % 2 ^ 16

-- `a - b` of two `uint32_t`.
abbrev pub sub_u32 : ℕ → ℕ → ℕ
sub_u32 a b = (a + 2 ^ 32 - b) % 2 ^ 32

-- `a - b` of two values that C narrows to `uint16_t`.
abbrev pub sub_u16 : ℕ → ℕ → ℕ
sub_u16 a b = (a + 2 ^ 16 - b) % 2 ^ 16

-- `UINT32_MAX`, written `0xFFFFFFFF` in the code.
abbrev pub max_u32 : ℕ
max_u32 = 0xffff_ffff

-- An address; `NULL` is 0.
abbrev pub Ptr : Type 0
Ptr = ℕ

abbrev pub null : Ptr
null = 0
