-- ===== src/Examples/Memory.antt =====
-- The service ReadMemoryByAddress at concrete addresses and sizes.
use uds_rs.Base.{ℕ, ◌≤◌, ◌≡◌, inl, refl, List, [], ◌∷◌, none, some, ok, err, arith, value}
use uds_rs.Base.Order.{lt_wf}
use native.Mathlib.Decide.{dec_lt}
use uds_rs.Communication.{send, receive}
use uds_rs.Response.{UdsResponse, UdsError, parsed}
use uds_rs.Client.{
  done, panicked, transmit, on_nrc, on_response, retry_loop, send_and_receive, parse_for_error,
}
use uds_rs.ReadMemoryByAddress.{
  encode_bytes_loop, encode_bytes, provided_len, last_bytes, request_arguments,
  convert_from_simple_to_normal, formulate_request, parse_response, read_memory_by_address,
  read_memory_by_address_simplified,
}
use uds_rs.ReadMemoryByAddress.Count.{encode_bytes-le_iff}
use uds_rs.ReadMemoryByAddress.RoundTrip.{read_request, read_request-convert}
use uds_rs.ReadMemoryByAddress.Panics.{DelayedEmpty, read_memory_by_address-panics_iff}
use uds_rs.ReadMemoryByAddress.Methods.{Delivers, read_memory_by_address-iff_served}
use uds_rs.ReadMemoryByAddress.Simplified.{
  read_memory_by_address_simplified_fits, read_memory_by_address_simplified_short,
}
use uds_rs.Examples.Tables.{negative_response_codes_derive}
use uds_rs.Examples.Ecu.{Bus, bus, client, patient}

run_count : encode_bytes 0x2000_1234 ≡ 4
unfolding encode_bytes encode_bytes_loop lt_wf dec_lt
run_count = refl

-- An address of zero needs no byte.
run_count_zero : encode_bytes 0 ≡ 0
unfolding encode_bytes encode_bytes_loop lt_wf dec_lt
run_count_zero = refl

encode_bytes-le_iff_example : encode_bytes 0x12345 ≤ 3
encode_bytes-le_iff_example = (encode_bytes-le_iff 0x12345 3 (omega arith)).1 (omega arith)

run_convert :
    convert_from_simple_to_normal 0x12345678 0x4321 none none
    ≡ value (ok (0x24, 0x12 ∷ 0x34 ∷ 0x56 ∷ 0x78 ∷ [], 0x43 ∷ 0x21 ∷ []))
unfolding convert_from_simple_to_normal request_arguments last_bytes provided_len encode_bytes
    encode_bytes_loop lt_wf dec_lt
run_convert = refl

run_convert_lengths :
    convert_from_simple_to_normal 0x5678 0x4321 (some 4) (some 3)
    ≡ value (ok (0x34, 0x00 ∷ 0x00 ∷ 0x56 ∷ 0x78 ∷ [], 0x00 ∷ 0x43 ∷ 0x21 ∷ []))
unfolding convert_from_simple_to_normal request_arguments last_bytes provided_len encode_bytes
    encode_bytes_loop lt_wf dec_lt
run_convert_lengths = refl

run_convert_too_big :
    convert_from_simple_to_normal 0x12345678 0x43211234 none (some 0xFF)
    ≡ value (
        ok (
          0x84,
          0x12 ∷ 0x34 ∷ 0x56 ∷ 0x78 ∷ [],
          0x00 ∷ 0x00 ∷ 0x00 ∷ 0x00 ∷ 0x43 ∷ 0x21 ∷ 0x12 ∷ 0x34 ∷ [],
        ))
unfolding convert_from_simple_to_normal request_arguments last_bytes provided_len encode_bytes
    encode_bytes_loop lt_wf dec_lt
run_convert_too_big = refl

-- Three bytes for an address that needs four.
run_convert_short :
    convert_from_simple_to_normal 0x12345678 0x4321 (some 3) none
    ≡ value (err UdsError.invalid_argument)
unfolding convert_from_simple_to_normal request_arguments last_bytes provided_len encode_bytes
    encode_bytes_loop lt_wf dec_lt
run_convert_short = refl

read_request-convert_example :
    read_request (formulate_request 0x34 (0x00 ∷ 0x00 ∷ 0x56 ∷ 0x78 ∷ []) (0x00 ∷ 0x43 ∷ 0x21 ∷ []))
    ≡ some (0x5678, 0x4321)
read_request-convert_example =
    read_request-convert 0x5678 0x4321 (some 4) (some 3) _ (omega arith) (omega arith)
      run_convert_lengths

abbrev memory_answer : UdsResponse
memory_answer = UdsResponse.read_memory_by_address (parsed (record { data_record = 1 ∷ 2 ∷ [] }))

run_read :
    read_memory_by_address patient client 0x11
      (0x20 ∷ [])
      (0x02 ∷ [])
      (bus ((0x63 ∷ 1 ∷ 2 ∷ []) ∷ []))
    ≡ done
        (ok memory_answer)
        (record { answers = []; sent = (0x23 ∷ 0x11 ∷ 0x20 ∷ 0x02 ∷ []) ∷ [] })
unfolding read_memory_by_address formulate_request parse_response send_and_receive transmit
    retry_loop on_response on_nrc parse_for_error send receive
run_read = refl

read_memory_by_address-iff_served_example :
    Delivers patient client
      (0x11 ∷ 0x20 ∷ 0x02 ∷ [])
      (bus ((0x63 ∷ 1 ∷ 2 ∷ []) ∷ []))
      memory_answer
      (record { answers = []; sent = (0x23 ∷ 0x11 ∷ 0x20 ∷ 0x02 ∷ []) ∷ [] })
read_memory_by_address-iff_served_example =
    (read_memory_by_address-iff_served patient client 0x11 (0x20 ∷ []) (0x02 ∷ [])
        (bus ((0x63 ∷ 1 ∷ 2 ∷ []) ∷ [])) memory_answer UdsError.response_empty _).0.0
      run_read

-- ResponsePending, and then nothing in a message.
abbrev emptying : Bus
emptying = bus ((0x7F ∷ 0x23 ∷ 0x78 ∷ []) ∷ [] ∷ [])

run_panic :
    read_memory_by_address patient client 0x11 (0x20 ∷ []) (0x02 ∷ []) emptying
    ≡ panicked (record { answers = []; sent = (0x23 ∷ 0x11 ∷ 0x20 ∷ 0x02 ∷ []) ∷ [] })
unfolding read_memory_by_address formulate_request parse_response send_and_receive transmit
    retry_loop on_response on_nrc parse_for_error send receive
run_panic = refl

read_memory_by_address-panics_iff_example :
    DelayedEmpty patient client
      (0x11 ∷ 0x20 ∷ 0x02 ∷ [])
      emptying
      (record { answers = []; sent = (0x23 ∷ 0x11 ∷ 0x20 ∷ 0x02 ∷ []) ∷ [] })
read_memory_by_address-panics_iff_example =
    (read_memory_by_address-panics_iff patient client 0x11 (0x20 ∷ []) (0x02 ∷ []) emptying _).0
      run_panic

read_memory_by_address_simplified_fits_example :
    (identifier : ℕ) × (address : List ℕ) × (size : List ℕ) × (read_request
        (formulate_request identifier address size)
      ≡ some (0x5678, 0x4321))
    × (read_memory_by_address_simplified patient client 0x5678 0x4321 (some 4) (some 3) emptying
        ≡ read_memory_by_address patient client identifier address size emptying)
read_memory_by_address_simplified_fits_example =
    read_memory_by_address_simplified_fits patient client 0x5678 0x4321 (some 4) (some 3) emptying
      (omega arith) (omega arith) (omega arith) (omega arith)

read_memory_by_address_simplified_short_example :
    read_memory_by_address_simplified patient client 0x12345678 0x4321 (some 3) none emptying
    ≡ done (err UdsError.invalid_argument) emptying
read_memory_by_address_simplified_short_example =
    read_memory_by_address_simplified_short patient client 0x12345678 0x4321 (some 3) none emptying
      (omega arith) (omega arith) (inl (omega arith))
