-- ===== src/Base/Word.antt =====
-- Casts to the fixed widths, and the masks and shifts of C as arithmetic.
use Prim.Native.Nat.{ℕ, ◌+◌, ◌-◌, ◌*◌, ◌/◌, ◌%◌, ◌^◌}

abbrev pub u8 : ℕ → ℕ
u8 n = n % 2 ^ 8

abbrev pub u16 : ℕ → ℕ
u16 n = n % 2 ^ 16

abbrev pub u32 : ℕ → ℕ
u32 n = n % 2 ^ 32

-- `x >> k`
abbrev pub shr : ℕ → ℕ → ℕ
shr x k = x / 2 ^ k

-- `x << k`
abbrev pub shl : ℕ → ℕ → ℕ
shl x k = x * 2 ^ k

-- `x & m` for a mask `m` of `n` ones that begin at bit `lo`: `x & 0xF0` is `field x 4 4`.
abbrev pub field : ℕ → ℕ → ℕ → ℕ
field x lo n = x / 2 ^ lo % 2 ^ n * 2 ^ lo

-- `x & m` for a mask `m` of `n` ones at bit 0: `x & 0xff` is `low_bits x 8`.
abbrev pub low_bits : ℕ → ℕ → ℕ
low_bits x n = x % 2 ^ n

-- `(uint16_t)(a - b)`, which wraps.
abbrev pub sub_u16 : ℕ → ℕ → ℕ
sub_u16 a b = (a + 2 ^ 16 - b % 2 ^ 16) % 2 ^ 16

-- `(uint8_t)(a - b)`, which wraps.
abbrev pub sub_u8 : ℕ → ℕ → ℕ
sub_u8 a b = (a + 2 ^ 8 - b % 2 ^ 8) % 2 ^ 8
