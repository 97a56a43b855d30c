-- ===== src/ReadMemoryByAddress/RoundTrip.antt =====
-- The request of the service ReadMemoryByAddress, as a server reads it.
use uds_rs.Base.{
  ℕ, zero, suc, ◌+◌, ◌*◌, ◌/◌, ◌%◌, ◌^◌, ◌<◌, ◌≤◌, ◌≡◌, ◌∙◌, inl, inr, refl, ap, arith, List, [],
  ◌∷◌, ◌++◌, take, drop, value, MayPanic, Result, sym, Option, none, some, ok, IsU64,
}
use mathlib.Core.List.{append-nil}
use native.Mathlib.Decide.{dec_lt}
use uds_rs.Response.{UdsError}
use uds_rs.ReadMemoryByAddress.{convert_from_simple_to_normal, formulate_request}
use uds_rs.ReadMemoryByAddress.BigEndian.{be_value, be_bytes, be_value-be_bytes_fits}
use uds_rs.ReadMemoryByAddress.Convert.{
  wanted, wanted-le, convert_from_simple_to_normal_fits, convert_from_simple_to_normal_short,
}

-- How a server reads the request: the two halves of the second byte say in how many bytes the
-- address and the size follow.
abbrev pub read_request : List ℕ → Option (ℕ × ℕ)
read_request (sid ∷ identifier ∷ rest) = some (
  be_value 0 (take (identifier % 16) rest),
  be_value 0 (take (identifier / 16) (drop (identifier % 16) rest)),
)
read_request _ = none

take-be_bytes : (k n : ℕ) (rest : List ℕ) → take k (be_bytes k n ++ rest) ≡ be_bytes k n
take-be_bytes zero n rest = refl
take-be_bytes (suc k) n rest = ap (λ l. (n / 256 ^ k % 256) ∷ l) (take-be_bytes k n rest)

drop-be_bytes : (k n : ℕ) (rest : List ℕ) → drop k (be_bytes k n ++ rest) ≡ rest
drop-be_bytes zero n rest = refl
drop-be_bytes (suc k) n rest = drop-be_bytes k n rest

read_request-formulate :
    (k m n n' : ℕ)
    → k ≤ 8
    → m ≤ 8
    → n < 256 ^ k
    → n' < 256 ^ m
    → read_request (formulate_request (m * 16 + k) (be_bytes k n) (be_bytes m n')) ≡ some (n, n')
unfolding formulate_request
read_request-formulate k m n n' hk hm fits fits' =
    let low : (m * 16 + k) % 16 ≡ k = omega arith in
    let high : (m * 16 + k) / 16 ≡ m = omega arith in
    let whole = ap (take m) (append-nil (be_bytes m n')) in
    rw (
      low,
      high,
      take-be_bytes k n (be_bytes m n'),
      drop-be_bytes k n (be_bytes m n'),
      ← whole,
      take-be_bytes m n' [],
      be_value-be_bytes_fits k n hk fits,
      be_value-be_bytes_fits m n' hm fits',
    )

value_ok-injective :
    {A : Type 0} {a b : A}
    → ◌≡◌ {A = MayPanic (Result A UdsError)} (value (ok a)) (value (ok b))
    → a ≡ b
value_ok-injective h = ground arith

-- Whatever lengths are given with a u64 address and a u64 size, arguments that the conversion returns
-- make a request that a server reads as this address and this size.
pub read_request-convert :
    (memory_address memory_size : ℕ) (address_len size_len : Option ℕ)
    (arguments : ℕ × List ℕ × List ℕ)
    → IsU64 memory_address
    → IsU64 memory_size
    → convert_from_simple_to_normal memory_address memory_size address_len size_len
      ≡ value (ok arguments)
    → read_request (formulate_request arguments.0 arguments.1 arguments.2)
      ≡ some (memory_address, memory_size)
read_request-convert n n' l l' arguments h h' e = elim (dec_lt n (256 ^ wanted l n)) [
  | no over ↦ cc (convert_from_simple_to_normal_short n n' l l' h h' (inl (omega arith)))
  | yes fits ↦ elim (dec_lt n' (256 ^ wanted l' n')) [
    | no over ↦ cc (convert_from_simple_to_normal_short n n' l l' h h' (inr (omega arith)))
    | yes fits' ↦
        let same = convert_from_simple_to_normal_fits n n' l l' h h' fits fits' in
        rw (value_ok-injective (sym e ∙ same)) (
          read_request-formulate (wanted l n) (wanted l' n') n n' (wanted-le l n h)
            (wanted-le l' n' h') fits fits')
  ]
]
