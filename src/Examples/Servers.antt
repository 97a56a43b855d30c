-- ===== src/Examples/Servers.antt =====
-- Servers that are called at once, and the calls of the client with them.
use uds_rs.Base.{
  map, ℕ, ◌+◌, ◌*◌, ◌/◌, ◌%◌, ◌≡◌, refl, ap, List, [], ◌∷◌, ◌++◌, take, drop, Option, none, some,
  ok, IsU16, be_16, ◌==◌, if◌then◌else◌, arith,
}
use mathlib.Core.Option.{none-ne-some}
use uds_rs.Communication.{ready, send, receive}
use uds_rs.Response.{UdsResponse, parsed, DtcAndStatusRecord}
use uds_rs.Client.{Tokio, UdsClient, done, parse_for_error}
use uds_rs.Client.Sound.{Served, answered}
use uds_rs.Client.Exchange.{first}
use uds_rs.WriteDataByIdentifier.{write_data_by_identifier}
use uds_rs.ReadDataByIdentifier.{read_data_by_identifier}
use uds_rs.ReadMemoryByAddress.{read_memory_by_address_simplified}
use uds_rs.ReadMemoryByAddress.RoundTrip.{read_request}
use uds_rs.ClearDiagnosticInformation.{clear_diagnostic_information}
use uds_rs.ReadDtcInformation.{report_dtc_by_status_mask}
use uds_rs.ReadDtcInformation.Records.{dtc_bytes}
use uds_rs.Server.Identifiers.{IsStore, write_then_read, record_of, confirmation_of}
use uds_rs.Server.Memory.{IsMemory, read_memory_by_address_simplified-region}
use uds_rs.Server.Dtcs.{IsDtcMemory, clear_then_report, dtcs_response, select, reset_status}
use uds_rs.Examples.Tables.{negative_response_codes_derive, sub_functions_derive}

-- What the server holds, and its last answer.
record Bench (S : Type 0) : Type 0 where
  held : S
  answer : List ℕ

-- A future is never waited for.
abbrev pub impatient : {W : Type 0} → Tokio W
impatient = record {
  timeout = λ ms f w. (none, w);
  timeout_output = λ ms f w w' r h. absurd (none-ne-some r (λ i. (h i).0));
}

module _ {S : Type 0} (answer_of : List ℕ → S → List ℕ × S) where
  abbrev after : List ℕ → S → Bench S
  after request held =
      let (answer, held') = answer_of request held in record { held = held'; answer = answer }

  abbrev bench : UdsClient (Bench S)
  bench = record {
    socket = record {
      isotp_socket = record {
        write_packet = λ payload w. ready (ok tt) (after payload w.held);
        read_packet = λ w. ready (ok w.answer) w;
      };
    };
  }

  bench-Served :
      (sid : ℕ) (args : List ℕ) (w : Bench S) (answer : List ℕ) (held : S)
      → answer_of (sid ∷ args) w.held ≡ (answer, held)
      → parse_for_error answer ≡ ok tt
      → Served impatient bench sid args w answer (record { held = held; answer = answer })
  unfolding send receive
  bench-Served sid args w answer held e positive =
      answered (omega arith)
        (first refl (λ i. ready (ok (e i).0) (record { held = (e i).1; answer = (e i).0 })))
        positive

-- A server that stores data by identifier.
abbrev Store : Type 0
Store = ℕ → List ℕ

abbrev replaced : ℕ → List ℕ → Store → Store
replaced did bytes stored k = if k == did then bytes else stored k

abbrev store_answer : List ℕ → Store → List ℕ × Store
store_answer (sid ∷ msb ∷ lsb ∷ bytes) stored =
    if sid == 0x2E
    then (0x6E ∷ msb ∷ lsb ∷ [], replaced (msb * 256 + lsb) bytes stored)
    else (0x62 ∷ msb ∷ lsb ∷ stored (msb * 256 + lsb), stored)
store_answer request stored = (0x7F ∷ 0x22 ∷ 0x13 ∷ [], stored)

whole_identifier : (did : ℕ) → did / 256 * 256 + did % 256 ≡ did
whole_identifier did = omega arith

bench-IsStore : IsStore impatient (bench store_answer) IsU16 (λ w. w.held)
unfolding parse_for_error
bench-IsStore = record {
  known_range = λ did known. known;
  after_write =
      λ w did bytes. record { held = replaced did bytes w.held; answer = 0x6E ∷ be_16 did };
  after_read = λ w did. record { held = w.held; answer = 0x62 ∷ (be_16 did ++ w.held did) };
  writes = λ w did bytes known h.
      bench-Served store_answer 0x2E (be_16 did ++ bytes) w (0x6E ∷ be_16 did)
        (replaced did bytes w.held)
        (ap (λ n. (0x6E ∷ be_16 did, replaced n bytes w.held)) (whole_identifier did)) refl;
  written = λ w did k bytes known h. refl;
  reads = λ w did known.
      bench-Served store_answer 0x22 (be_16 did) w (0x62 ∷ (be_16 did ++ w.held did)) w.held
        (ap (λ n. (0x62 ∷ (be_16 did ++ w.held n), w.held)) (whole_identifier did)) refl;
}

abbrev empty_store : Bench Store
empty_store = record { held = λ did. []; answer = [] }

write_then_read_example :
    (v : Bench Store) × (v' : Bench Store) × (write_data_by_identifier impatient
        (bench store_answer)
        0xF190
        (1 ∷ 2 ∷ 3 ∷ [])
        empty_store
      ≡ done (ok (confirmation_of 0xF190)) v)
    × (read_data_by_identifier impatient (bench store_answer) (0xF190 ∷ []) v
        ≡ done (ok (record_of 0xF190 (1 ∷ 2 ∷ 3 ∷ []))) v')
write_then_read_example =
    write_then_read impatient (bench store_answer) bench-IsStore empty_store 0xF190 0xF190
      (1 ∷ 2 ∷ 3 ∷ []) (omega arith) (omega arith) (omega arith, (omega arith, (omega arith, tt)))
      tt

-- A server with a memory of a few bytes, from the address 0.
abbrev memory_reply : Option (ℕ × ℕ) → List ℕ → List ℕ
memory_reply (some (memory_address, memory_size)) cells =
    0x63 ∷ take memory_size (drop memory_address cells)
memory_reply none cells = 0x7F ∷ 0x23 ∷ 0x13 ∷ []

abbrev memory_answer : List ℕ → List ℕ → List ℕ × List ℕ
memory_answer request cells = (memory_reply (read_request request) cells, cells)

abbrev memory_region : Bench (List ℕ) → ℕ → ℕ → List ℕ
memory_region w memory_address memory_size = take memory_size (drop memory_address w.held)

bench-IsMemory : IsMemory impatient (bench memory_answer) memory_region
unfolding parse_for_error
bench-IsMemory = record {
  after_read = λ w memory_address memory_size. record {
    held = w.held;
    answer = 0x63 ∷ memory_region w memory_address memory_size;
  };
  serves = λ w args memory_address memory_size e.
      bench-Served memory_answer 0x23 args w (0x63 ∷ memory_region w memory_address memory_size)
        w.held (ap (λ r. (memory_reply r w.held, w.held)) e) refl;
}

abbrev memory_bench : Bench (List ℕ)
memory_bench = record { held = 10 ∷ 11 ∷ 12 ∷ 13 ∷ 14 ∷ []; answer = [] }

read_memory_by_address_simplified-region_example :
    read_memory_by_address_simplified impatient
      (bench memory_answer)
      1
      3
      (some 2)
      (some 1)
      memory_bench
    ≡ done
        (ok (
          UdsResponse.read_memory_by_address (parsed (record { data_record = 11 ∷ 12 ∷ 13 ∷ [] }))))
        (record { held = memory_bench.held; answer = 0x63 ∷ 11 ∷ 12 ∷ 13 ∷ [] })
unfolding bench-IsMemory
read_memory_by_address_simplified-region_example =
    read_memory_by_address_simplified-region impatient (bench memory_answer) bench-IsMemory 1 3
      (some 2) (some 1) memory_bench (omega arith) (omega arith) (omega arith) (omega arith)

-- A server that stores DTCs. A DTC that was cleared is not tested yet: its status is 0x50.
abbrev clear_all : List DtcAndStatusRecord → List DtcAndStatusRecord
clear_all stored = map (reset_status 0x50) stored

abbrev dtcs_answer : List ℕ → List DtcAndStatusRecord → List ℕ × List DtcAndStatusRecord
dtcs_answer (_ ∷ _ ∷ mask ∷ []) stored =
    (0x59 ∷ 0x02 ∷ 0xFF ∷ dtc_bytes (select mask stored), stored)
dtcs_answer request stored = (0x54 ∷ [], clear_all stored)

bench-IsDtcMemory : IsDtcMemory impatient (bench dtcs_answer) (λ w. w.held) 0xFF 0x50
unfolding parse_for_error
bench-IsDtcMemory = record {
  cleared = λ w. record { held = clear_all w.held; answer = 0x54 ∷ [] };
  reported = λ w mask. record {
    held = w.held;
    answer = 0x59 ∷ 0x02 ∷ 0xFF ∷ dtc_bytes (select mask w.held);
  };
  clears = λ w.
      bench-Served dtcs_answer 0x14 (0xFF ∷ 0xFF ∷ 0xFF ∷ []) w (0x54 ∷ []) (clear_all w.held) refl
        refl;
  resets = λ w. refl;
  reports = λ w mask.
      bench-Served dtcs_answer 0x19 (0x02 ∷ mask ∷ []) w
        (0x59 ∷ 0x02 ∷ 0xFF ∷ dtc_bytes (select mask w.held)) w.held refl refl;
}

abbrev two_dtcs : Bench (List DtcAndStatusRecord)
two_dtcs = record {
  held =
      record { dtc = 0x010203; status_of_dtc = 0x08 }
      ∷ record { dtc = 0x040506; status_of_dtc = 0x01 }
      ∷ [];
  answer = [];
}

abbrev cleared_dtcs : Bench (List DtcAndStatusRecord)
cleared_dtcs = record { held = clear_all two_dtcs.held; answer = 0x54 ∷ [] }

-- The mask 0x0C selects the first DTC, and none after all were cleared.
clear_then_report_example :
    (report_dtc_by_status_mask impatient (bench dtcs_answer) 0x0C two_dtcs
      ≡ done
          (ok (dtcs_response 0xFF (record { dtc = 0x010203; status_of_dtc = 0x08 } ∷ [])))
          (record {
            held = two_dtcs.held;
            answer = 0x59 ∷ 0x02 ∷ 0xFF ∷ 0x01 ∷ 0x02 ∷ 0x03 ∷ 0x08 ∷ [];
          }))
    × (clear_diagnostic_information impatient (bench dtcs_answer) 0xFFFFFF two_dtcs
        ≡ done (ok UdsResponse.clear_diagnostic_information) cleared_dtcs)
    × (report_dtc_by_status_mask impatient (bench dtcs_answer) 0x0C cleared_dtcs
        ≡ done
            (ok (dtcs_response 0xFF []))
            (record { held = cleared_dtcs.held; answer = 0x59 ∷ 0x02 ∷ 0xFF ∷ [] }))
unfolding bench-IsDtcMemory
clear_then_report_example =
    clear_then_report impatient (bench dtcs_answer) bench-IsDtcMemory two_dtcs 0x0C
      (omega arith, (omega arith, tt))
