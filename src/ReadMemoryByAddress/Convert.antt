-- ===== src/ReadMemoryByAddress/Convert.antt =====
-- `convert_from_simple_to_normal`, and the request as a server reads it.
use uds_rs.Base.{
  ℕ, ◌+◌, ◌*◌, ◌^◌, ◌<◌, ◌≤◌, ◌≡◌, ◌⊎◌, inl, inr, refl, arith, value, Option, none, some, ok, err,
  IsU64,
}
use Prim.Native.Nat.{min}
use native.Mathlib.Decide.{dec_lt}
use uds_rs.Response.{UdsError}
use uds_rs.ReadMemoryByAddress.{
  encode_bytes, provided_len, request_arguments, convert_from_simple_to_normal,
}
use uds_rs.ReadMemoryByAddress.Count.{
  encode_bytes-le, encode_bytes_fits, encode_bytes-le_iff, lt-encode_bytes,
}
use uds_rs.ReadMemoryByAddress.BigEndian.{be_bytes, last_bytes_lem}

-- The number of bytes that a number is sent in: the one given, at most 8, or as few as it needs.
abbrev pub wanted : Option ℕ → ℕ → ℕ
wanted none n = encode_bytes n
wanted (some len) n = min len 8

pub wanted-le : (len : Option ℕ) (n : ℕ) → IsU64 n → wanted len n ≤ 8
wanted-le none n h = encode_bytes-le n h
wanted-le (some len) n h = omega arith

provided_len_fits :
    (len : Option ℕ) (n : ℕ)
    → IsU64 n
    → n < 256 ^ wanted len n
    → provided_len len (encode_bytes n) ≡ ok (wanted len n)
unfolding provided_len
provided_len_fits none n h fits = refl
provided_len_fits (some len) n h fits =
    let least = (encode_bytes-le_iff n (min len 8) h).1 fits in ground arith

provided_len_short :
    (len : Option ℕ) (n : ℕ)
    → IsU64 n
    → 256 ^ wanted len n ≤ n
    → provided_len len (encode_bytes n) ≡ err UdsError.invalid_argument
unfolding provided_len
provided_len_short none n h short = absurd (omega (arith, encode_bytes_fits n h))
provided_len_short (some len) n h short =
    let more = lt-encode_bytes n (min len 8) h short in ground arith

module _ (memory_address memory_size : ℕ) (address_len size_len : Option ℕ)
    (address_range : IsU64 memory_address) (size_range : IsU64 memory_size) where
  abbrev a : ℕ
  a = wanted address_len memory_address

  abbrev s : ℕ
  s = wanted size_len memory_size

  -- Where both u64 numbers fit in the bytes wanted for them, the code returns the numbers of bytes in
  -- one byte, and the last bytes of each number. No slice is out of range.
  pub convert_from_simple_to_normal_fits :
      memory_address < 256 ^ wanted address_len memory_address
      → memory_size < 256 ^ wanted size_len memory_size
      → convert_from_simple_to_normal memory_address memory_size address_len size_len
        ≡ value (
            ok (
              wanted size_len memory_size * 16 + wanted address_len memory_address,
              be_bytes (wanted address_len memory_address) memory_address,
              be_bytes (wanted size_len memory_size) memory_size,
            ))
  unfolding convert_from_simple_to_normal request_arguments
  convert_from_simple_to_normal_fits fits fits' =
      let ha = wanted-le address_len memory_address address_range in
      let hs = wanted-le size_len memory_size size_range in
      rw
        (
          provided_len_fits address_len memory_address address_range fits,
          provided_len_fits size_len memory_size size_range fits',
          last_bytes_lem a memory_address ha,
          last_bytes_lem s memory_size hs,
        )
        (ground arith)

  -- Where one of two u64 numbers does not fit in the bytes wanted for it, the code refuses the arguments.
  pub convert_from_simple_to_normal_short :
      (256 ^ wanted address_len memory_address ≤ memory_address)
        ⊎ (256 ^ wanted size_len memory_size ≤ memory_size)
      → convert_from_simple_to_normal memory_address memory_size address_len size_len
        ≡ value (err UdsError.invalid_argument)
  unfolding convert_from_simple_to_normal
  convert_from_simple_to_normal_short (inl short) =
      rw (provided_len_short address_len memory_address address_range short)
  convert_from_simple_to_normal_short (inr short) = elim (dec_lt memory_address (256 ^ a)) [
    | yes fits ↦ rw (
      provided_len_fits address_len memory_address address_range fits,
      provided_len_short size_len memory_size size_range short,
    )
    | no over ↦ rw (provided_len_short address_len memory_address address_range (omega arith))
  ]
