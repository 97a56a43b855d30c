-- ===== src/ReadMemoryByAddress.antt =====
-- src/uds/read_memory_by_address.rs: the service ReadMemoryByAddress (0x23).
pub mod Count
pub mod BigEndian
pub mod Convert
pub mod RoundTrip
pub mod Simplified
pub mod Panics
pub mod Methods
use uds_rs.Base.{
  ℕ, suc, ◌+◌, ◌-◌, ◌/◌, ◌%◌, ◌^◌, ◌<◌, List, [], ◌∷◌, ◌++◌, Option, none, some, Result, ok, err,
  ◌>>=◌, MayPanic, value, panic, and_then, drop, length, ltb, ◌!=◌, if◌then◌else◌, as_u8, shr,
  add_wrapping, shl_wrapping, arith,
}
use uds_rs.Base.Order.{lt_wf}
use mathlib.Core.Logic.{dite}
use mathlib.Core.WellFounded.{Acc}
use native.Mathlib.Decide.{dec_lt}
use uds_rs.NumEnum.{TryFromPrimitive}
use uds_rs.Definitions.{send_receive_sid_offset, negative_response_code_as_u8}
use uds_rs.Response.{DataFormat, parsed, UdsResponse, UdsError, EcuResponseResult}
use uds_rs.Client.{Call, done, return_panic, await_call, Tokio, UdsClient, send_and_receive}

abbrev pub read_memory_by_address_sid : ℕ
read_memory_by_address_sid = 0x23

pub shift_shrinks : (i : ℕ) → 0 < i → shr i 8 < i
shift_shrinks i h = omega arith

-- `while i > 0 { i >>= 8; encode_bytes += 1; }` on a u8 counter.
unfoldable pub encode_bytes_loop : (i : ℕ) → ℕ → Acc ◌<◌ i → ℕ
encode_bytes_loop i encode_bytes (Acc.intro _ smaller) =
    dite (dec_lt 0 i)
      (λ more.
        encode_bytes_loop (shr i 8) (add_wrapping 8 encode_bytes 1)
          (smaller _ (shift_shrinks i more)))
      (λ _. encode_bytes)

unfoldable pub encode_bytes : ℕ → ℕ
encode_bytes i = encode_bytes_loop i 0 (lt_wf.apply i)

-- The number of bytes to use, given the number of bytes needed: `if let Some(mut provided) = ..`.
unfoldable pub provided_len : Option ℕ → ℕ → Result ℕ UdsError
provided_len none encode = ok encode
provided_len (some provided) encode =
    let provided' = if ltb 0x8 provided then 0x8 else provided in
    if ltb provided' encode
    then err UdsError.invalid_argument
    else if ltb encode provided'
    then ok provided'
    else ok encode

-- `u64::to_be_bytes`
abbrev pub to_be_bytes : ℕ → List ℕ
to_be_bytes n =
    as_u8 (shr n 56)
    ∷ as_u8 (shr n 48)
    ∷ as_u8 (shr n 40)
    ∷ as_u8 (shr n 32)
    ∷ as_u8 (shr n 24)
    ∷ as_u8 (shr n 16)
    ∷ as_u8 (shr n 8)
    ∷ as_u8 n
    ∷ []

-- `xs[start..]`
abbrev pub slice_from : ℕ → List ℕ → MayPanic (List ℕ)
slice_from start xs = if ltb (length xs) start then panic else value (drop start xs)

-- `n.to_be_bytes().as_slice()[(8 - len as usize)..].to_vec()`
unfoldable pub last_bytes : ℕ → ℕ → MayPanic (List ℕ)
last_bytes n len = slice_from ((8 + 2 ^ 64 - len) % 2 ^ 64) (to_be_bytes n)

-- The end of `convert_from_simple_to_normal`, once the two numbers of bytes are found.
unfoldable pub request_arguments : ℕ → ℕ → ℕ → ℕ → MayPanic (ℕ × List ℕ × List ℕ)
request_arguments memory_address memory_size address_encode_bytes size_encode_bytes =
    and_then (last_bytes memory_address address_encode_bytes) λ memory_address_bytes.
      and_then (last_bytes memory_size size_encode_bytes) λ memory_size_bytes. value (
        add_wrapping 8 (shl_wrapping 8 size_encode_bytes 4) address_encode_bytes,
        memory_address_bytes,
        memory_size_bytes,
      )

-- A panic passes a `Result` by.
abbrev pub transpose : {A : Type 0} → Result (MayPanic A) UdsError → MayPanic (Result A UdsError)
transpose (ok (value a)) = value (ok a)
transpose (ok panic) = panic
transpose (err e) = value (err e)

unfoldable pub convert_from_simple_to_normal :
    ℕ → ℕ → Option ℕ → Option ℕ → MayPanic (Result (ℕ × List ℕ × List ℕ) UdsError)
convert_from_simple_to_normal memory_address memory_size memory_address_len memory_size_len =
    transpose (do
      address_encode_bytes ← provided_len memory_address_len (encode_bytes memory_address)
      size_encode_bytes ← provided_len memory_size_len (encode_bytes memory_size)
      ok (request_arguments memory_address memory_size address_encode_bytes size_encode_bytes))

unfoldable pub formulate_request : ℕ → List ℕ → List ℕ → List ℕ
formulate_request address_and_memory_length_format_identifier memory_address memory_size =
    ((read_memory_by_address_sid ∷ address_and_memory_length_format_identifier ∷ [])
      ++ memory_address)
    ++ memory_size

-- `raw_response[0]` panics on an empty response.
unfoldable pub parse_response : List ℕ → MayPanic EcuResponseResult
parse_response [] = panic
parse_response (sid ∷ data_record) =
    let raw_response = sid ∷ data_record in
    if sid != read_memory_by_address_sid + send_receive_sid_offset
    then value (
        err (
          UdsError.sid_mismatch (read_memory_by_address_sid + send_receive_sid_offset) sid
            raw_response))
    else value
        (ok (UdsResponse.read_memory_by_address (parsed (record { data_record = data_record }))))

module _ ⦃nrcs : TryFromPrimitive negative_response_code_as_u8⦄ where
  module _ {W : Type 0} (tokio : Tokio W) (self : UdsClient W) where
    unfoldable pub read_memory_by_address : ℕ → List ℕ → List ℕ → W → Call W UdsResponse
    read_memory_by_address identifier memory_address memory_size w =
        await_call
          (send_and_receive tokio self (formulate_request identifier memory_address memory_size) w)
          λ response w. return_panic (parse_response response) w

    unfoldable pub read_memory_by_address_simplified :
        ℕ → ℕ → Option ℕ → Option ℕ → W → Call W UdsResponse
    unfolding read_memory_by_address
    read_memory_by_address_simplified memory_address memory_size address_len size_len w =
        await_call
          (return_panic
            (convert_from_simple_to_normal memory_address memory_size address_len size_len) w)
          λ arguments w. read_memory_by_address arguments.0 arguments.1 arguments.2 w
