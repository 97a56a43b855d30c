-- ===== src/ReadMemoryByAddress/BigEndian.antt =====
-- The big-endian bytes of a u64, and the number that they stand for.
use uds_rs.Base.{
  ℕ, zero, suc, ◌+◌, ◌*◌, ◌/◌, ◌%◌, ◌^◌, ◌<◌, ◌≤◌, ◌≡◌, ◌∙◌, refl, ap, arith, List, [], ◌∷◌, value,
}
use native.Mathlib.Nat.{pow-suc}
use uds_rs.ReadMemoryByAddress.{last_bytes}

-- The number that bytes stand for, most significant byte first.
abbrev pub be_value : ℕ → List ℕ → ℕ
be_value acc [] = acc
be_value acc (b ∷ bytes) = be_value (acc * 256 + b) bytes

-- The last `k` bytes of a number.
abbrev pub be_bytes : ℕ → ℕ → List ℕ
be_bytes zero n = []
be_bytes (suc k) n = (n / 256 ^ k % 256) ∷ be_bytes k n

split_byte : (k n : ℕ) → k ≤ 7 → n % 256 ^ suc k ≡ n / 256 ^ k % 256 * 256 ^ k + n % 256 ^ k
split_byte zero n h = omega arith
split_byte (suc zero) n h = omega arith
split_byte (suc (suc zero)) n h = omega arith
split_byte (suc (suc (suc zero))) n h = omega arith
split_byte (suc (suc (suc (suc zero)))) n h = omega arith
split_byte (suc (suc (suc (suc (suc zero))))) n h = omega arith
split_byte (suc (suc (suc (suc (suc (suc zero)))))) n h = omega arith
split_byte (suc (suc (suc (suc (suc (suc (suc zero))))))) n h = omega arith
split_byte (suc (suc (suc (suc (suc (suc (suc (suc k)))))))) n h = absurd (omega arith)

be_value-be_bytes :
    (k n acc : ℕ) → k ≤ 8 → be_value acc (be_bytes k n) ≡ acc * 256 ^ k + n % 256 ^ k
be_value-be_bytes zero n acc h = omega arith
be_value-be_bytes (suc k) n acc h =
    be_value-be_bytes k n (acc * 256 + n / 256 ^ k % 256) (omega arith)
    ∙ omega (
      arith,
      pow-suc 256 k,
      split_byte k n (omega arith),
      ap (λ (p : ℕ). acc * p) (pow-suc 256 k),
    )

pub be_value-be_bytes_fits : (k n : ℕ) → k ≤ 8 → n < 256 ^ k → be_value 0 (be_bytes k n) ≡ n
be_value-be_bytes_fits k n h fits = be_value-be_bytes k n 0 h ∙ grind arith

div_one : (n : ℕ) → n / 1 ≡ n
div_one n = omega arith

-- The slice is in range, and is the last `k` bytes.
pub last_bytes_lem : (k n : ℕ) → k ≤ 8 → last_bytes n k ≡ value (be_bytes k n)
unfolding last_bytes
last_bytes_lem zero n h = refl
last_bytes_lem (suc zero) n h = rw (div_one n)
last_bytes_lem (suc (suc zero)) n h = rw (div_one n)
last_bytes_lem (suc (suc (suc zero))) n h = rw (div_one n)
last_bytes_lem (suc (suc (suc (suc zero)))) n h = rw (div_one n)
last_bytes_lem (suc (suc (suc (suc (suc zero))))) n h = rw (div_one n)
last_bytes_lem (suc (suc (suc (suc (suc (suc zero)))))) n h = rw (div_one n)
last_bytes_lem (suc (suc (suc (suc (suc (suc (suc zero))))))) n h = rw (div_one n)
last_bytes_lem (suc (suc (suc (suc (suc (suc (suc (suc zero)))))))) n h = rw (div_one n)
last_bytes_lem (suc (suc (suc (suc (suc (suc (suc (suc (suc k))))))))) n h = absurd (omega arith)
