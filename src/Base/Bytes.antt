-- ===== src/Base/Bytes.antt =====
-- Rust's unsigned casts and shifts on native numbers, and what big-endian pairs and triples mean.
use mathlib.Core.List.{List, [], ◌∷◌}
use Prim.Native.Nat.{ℕ, ◌+◌, ◌*◌, ◌/◌, ◌%◌, ◌^◌, ◌<◌}

abbrev pub IsByte : ℕ → Type 0
IsByte b = b < 256

abbrev pub IsU16 : ℕ → Type 0
IsU16 n = n < 2 ^ 16

abbrev pub IsU64 : ℕ → Type 0
IsU64 n = n < 2 ^ 64

-- `n as u8`
abbrev pub as_u8 : ℕ → ℕ
as_u8 n = n % 2 ^ 8

-- `n >> k`
abbrev pub shr : ℕ → ℕ → ℕ
shr n k = n / 2 ^ k

-- `a + b` and `n << k` at a width of `w` bits.
abbrev pub add_wrapping : ℕ → ℕ → ℕ → ℕ
add_wrapping w a b = (a + b) % 2 ^ w

abbrev pub shl_wrapping : ℕ → ℕ → ℕ → ℕ
shl_wrapping w n k = n * 2 ^ k % 2 ^ w

-- `((msb as u16) << 8) + lsb as u16`
abbrev pub u16_from : ℕ → ℕ → ℕ
u16_from msb lsb = add_wrapping 16 (shl_wrapping 16 msb 8) lsb

-- `((high as u32) << 16) + ((middle as u32) << 8) + low as u32`
abbrev pub u32_from : ℕ → ℕ → ℕ → ℕ
u32_from high middle low =
    add_wrapping 32 (add_wrapping 32 (shl_wrapping 32 high 16) (shl_wrapping 32 middle 8)) low

-- The standard's layout of a number of 16 or 24 bits, most significant byte first.
abbrev pub be_16 : ℕ → List ℕ
be_16 n = (n / 256) ∷ (n % 256) ∷ []

abbrev pub be_24 : ℕ → List ℕ
be_24 n = (n / 65536) ∷ (n / 256 % 256) ∷ (n % 256) ∷ []
