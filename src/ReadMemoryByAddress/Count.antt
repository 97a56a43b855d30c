-- ===== src/ReadMemoryByAddress/Count.antt =====
-- The number of bytes that a u64 needs.
use uds_rs.Base.{
  ℕ, zero, suc, ◌+◌, ◌/◌, ◌%◌, ◌^◌, ◌<◌, ◌≤◌, ◌≡◌, ◌↔◌, ◌∙◌, arith, ltb, if◌then◌else◌, IsU64, shr,
}
use mathlib.Core.WellFounded.{Acc}
use native.Mathlib.Decide.{dec_lt}
use native.Mathlib.Nat.{pow-suc}
use uds_rs.ReadMemoryByAddress.{encode_bytes_loop, encode_bytes}

-- The bytes of `i`, for `i` below 256 ^ k.
count : ℕ → ℕ → ℕ
count zero i = 0
count (suc k) i = let rest = count k (i / 256) in if ltb 0 i then suc rest else 0

encode_bytes_loop_lem :
    (k i acc : ℕ) (w : Acc ◌<◌ i)
    → i < 256 ^ k
    → acc + k < 256
    → encode_bytes_loop i acc w ≡ acc + count k i
unfolding encode_bytes_loop count
encode_bytes_loop_lem zero i acc (Acc.intro _ smaller) h small = ground arith
encode_bytes_loop_lem (suc k) i acc (Acc.intro _ smaller) h small = grind (
  arith,
  pow-suc 256 k,
  λ (w : Acc ◌<◌ (shr i 8)).
      encode_bytes_loop_lem k (shr i 8) ((acc + 1) % 2 ^ 8) w (omega (arith, pow-suc 256 k))
        (omega arith),
)

count-le : (k i : ℕ) → count k i ≤ k
unfolding count
count-le zero i = omega arith
count-le (suc k) i = ground (arith, count-le k (i / 256))

pow-pos : (k : ℕ) → 0 < 256 ^ k
pow-pos zero = omega arith
pow-pos (suc k) = omega (arith, pow-suc 256 k, pow-pos k)

count_least : (k i j : ℕ) → i < 256 ^ j → count k i ≤ j
unfolding count
count_least zero i j h = omega arith
count_least (suc k) i zero h = ground arith
count_least (suc k) i (suc j) h = ground (arith, pow-suc 256 j, count_least k (i / 256) j)

le-count : (k i j : ℕ) → i < 256 ^ k → count k i ≤ j → i < 256 ^ j
unfolding count
le-count zero i zero h m = h
le-count (suc k) i zero h m = ground arith
le-count zero i (suc j) h m = omega (arith, pow-suc 256 j, pow-pos j)
le-count (suc k) i (suc j) h m =
    ground (arith, pow-suc 256 k, pow-suc 256 j, pow-pos j, le-count k (i / 256) j)

encode_bytes-count : (i : ℕ) → IsU64 i → encode_bytes i ≡ count 8 i
unfolding encode_bytes
encode_bytes-count i h = encode_bytes_loop_lem 8 i 0 _ (omega arith) (omega arith) ∙ omega arith

-- The loop of the code counts exactly the bytes that a u64 needs: `j` bytes hold the number exactly
-- when the count is at most `j`.
pub encode_bytes-le_iff : (i j : ℕ) → IsU64 i → (encode_bytes i ≤ j) ↔ (i < 256 ^ j)
encode_bytes-le_iff i j h = (
  λ m. le-count 8 i j (omega arith) (rw (encode_bytes-count i h) at m),
  λ fits. rw (encode_bytes-count i h) (count_least 8 i j fits),
)

pub encode_bytes-le : (i : ℕ) → IsU64 i → encode_bytes i ≤ 8
encode_bytes-le i h = rw (encode_bytes-count i h) (count-le 8 i)

pub encode_bytes_fits : (i : ℕ) → IsU64 i → i < 256 ^ encode_bytes i
encode_bytes_fits i h = (encode_bytes-le_iff i (encode_bytes i) h).0 (omega arith)

pub lt-encode_bytes : (i j : ℕ) → IsU64 i → 256 ^ j ≤ i → j < encode_bytes i
lt-encode_bytes i j h over = elim (dec_lt j (encode_bytes i)) [
  | yes more ↦ more
  | no few ↦ absurd (omega (arith, (encode_bytes-le_iff i j h).0 (omega arith)))
]
