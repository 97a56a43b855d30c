-- ===== src/Services/Errors.antt =====
-- The errors that an exchange and the parsing of its answer return.
pub mod Methods
use uds_rs.Base.{
  ℕ, List, [], ◌∷◌, ◌≡◌, ◌↔◌, ◌⊎◌, refl, map, Result, ok, err, as_u8, shr, MayPanic, value, panic,
  Option, Bool-cases, ◌>>=◌, ◌++◌, none, some, inl, inr, ◌!=◌, arith,
}
use uds_rs.NumEnum.{TryFrom, variant, no_variant, TryFromPrimitive}
use uds_rs.Definitions.{NegativeResponseCode, negative_response_code_as_u8}
use uds_rs.Response.{
  UdsResponse, UdsError, EcuResponseResult, ResetType, reset_type_as_u8, SubFunction,
  sub_function_as_u8, dtc_format_as_u8,
}
use uds_rs.Client.{
  Call, done, panicked, never, exhausted, await_call, return_panic, Tokio, UdsClient,
  parse_for_error, nrc_error, send_and_receive,
}
use uds_rs.Client.Conclusion.{
  Concludes, unsent, unanswered, positive, unreadable, foreign, refused, gave_up, in_time, lost,
  elapsed,
}
use uds_rs.Client.Conclusion.Exact.{send_and_receive-iff-Concludes}
use uds_rs.Client.Methods.{run_method}
use uds_rs.Services.Blame.{
  Carries, Blames, fine, carries, ecu_reset-Blames, clear-Blames, write-Blames, session-Blames,
  read-Blames, tuple-Blames, snapshot-Blames, ext_data-Blames, number-Blames, dtcs-Blames,
}
use uds_rs.EcuReset.{ecu_reset, compose_ecu_reset_request, parse_ecu_reset_response}
use uds_rs.ClearDiagnosticInformation.{
  clear_diagnostic_information, compose_clear_diagnostic_information_request,
  parse_clear_diagnostic_information_response,
}
use uds_rs.WriteDataByIdentifier.{
  write_data_by_identifier, compose_write_data_by_identifier_request,
  parse_write_data_by_identifier_response,
}
use uds_rs.DiagnosticSessionControl.{
  diagnostic_session_control, compose_diagnostic_session_control_request,
  parse_diagnostic_session_control_response,
}
use uds_rs.ReadDataByIdentifier.{
  u32_max, read_data_by_identifier, read_data_by_identifier_tuple,
  compose_read_data_by_identifier_request, parse_read_data_by_identifier_response,
  parse_read_data_by_identifier_tuple_response,
}
use uds_rs.ReadDataByIdentifier.Request.{
  identifiers_bytes, compose_read_data_by_identifier_request_lem,
}
use uds_rs.ReadMemoryByAddress.{
  formulate_request, parse_response, convert_from_simple_to_normal, provided_len, transpose,
  request_arguments, read_memory_by_address, read_memory_by_address_simplified, encode_bytes,
}
use uds_rs.ReadDtcInformation.{
  report_number_of_dtc_by_status_mask, report_dtc_by_status_mask,
  report_dtc_snapshot_record_by_dtc_number, report_dtc_ext_data_record_by_dtc_number,
  report_most_recent_confirmed_dtc, compose_report_number_of_dtc_by_status_mask_request,
  compose_report_dtc_snapshot_request, compose_report_dtc_ext_data_by_dtc_number_request,
  compose_request_short, parse_report_number_of_dtc_by_status_mask_response, parse_report_dtcs,
  parse_report_dtc_snapshot_record_by_dtc_number_response,
  parse_report_dtc_ext_data_by_dtc_number_response,
}

-- `NotImplemented`, `UnsupportedSubfunction` and `RequestEmpty` are for nothing that the methods do.
abbrev pub IsRaised : UdsError → Type 0
IsRaised UdsError.not_implemented = ⊥
IsRaised (UdsError.unsupported_subfunction unsupported) = ⊥
IsRaised UdsError.request_empty = ⊥
IsRaised e = Unit

-- If the call fails, then with one of the other errors.
abbrev pub Raises : {W A : Type 0} → Call W A → Type 0
Raises (done (err e) v) = IsRaised e
Raises c = Unit

Raises-of :
    {W A : Type 0} (c : Call W A)
    → ((e : UdsError) (v : W) → c ≡ done (err e) v → IsRaised e)
    → Raises c
Raises-of (done (ok a) v) h = tt
Raises-of (done (err e) v) h = h e v refl
Raises-of (panicked v) h = tt
Raises-of never h = tt
Raises-of exhausted h = tt

pub await_call-Raises :
    {W A B : Type 0} (c : Call W A) (k : A → W → Call W B)
    → Raises c
    → ((a : A) (u : W) → Raises (k a u))
    → Raises (await_call c k)
await_call-Raises (done (ok a) u) k h h' = h' a u
await_call-Raises (done (err e) u) k h h' = h
await_call-Raises (panicked u) k h h' = tt
await_call-Raises never k h h' = tt
await_call-Raises exhausted k h h' = tt

Carries-IsRaised : (raw : List ℕ) (e : UdsError) → Carries raw e → IsRaised e
Carries-IsRaised raw UdsError.not_implemented c = c
Carries-IsRaised raw (UdsError.unsupported_subfunction n) c = c
Carries-IsRaised raw UdsError.request_empty c = c
Carries-IsRaised raw e c = tt

Blames-Raises :
    {W A : Type 0} {raw : List ℕ} {r : Result A UdsError} (v : W) → Blames raw r → Raises (done r v)
Blames-Raises v (fine a) = tt
Blames-Raises {raw} v (carries e c) = Carries-IsRaised raw e c

-- The same of a result.
abbrev pub Tells : {A : Type 0} → Result A UdsError → Type 0
Tells (ok a) = Unit
Tells (err e) = IsRaised e

nrc_error-Tells : (s : ℕ) (c : TryFrom NegativeResponseCode) → Tells (nrc_error s c)
nrc_error-Tells s (variant a) = tt
nrc_error-Tells s (no_variant n) = tt

parse_response-Raises :
    {W : Type 0} (raw : List ℕ) (v : W) → Raises (return_panic (parse_response raw) v)
unfolding parse_response
parse_response-Raises [] v = tt
parse_response-Raises (sid ∷ rest) v = elim (Bool-cases (sid != 0x63)) [
  | inl other ↦ rw other tt
  | inr own ↦ rw own tt
]

pub provided_len-Tells : (len : Option ℕ) (n : ℕ) → Tells (provided_len len n)
unfolding provided_len
provided_len-Tells none n = tt
provided_len-Tells (some len) n = ground arith

pub transpose-Raises :
    {W A : Type 0} (r : Result (MayPanic A) UdsError) (v : W)
    → Tells r
    → Raises (return_panic (transpose r) v)
transpose-Raises (ok (value a)) v h = tt
transpose-Raises (ok panic) v h = tt
transpose-Raises (err e) v h = h

pub >>=-Tells :
    {A B : Type 0} (m : Result A UdsError) (f : A → Result B UdsError)
    → Tells m
    → ((a : A) → Tells (f a))
    → Tells (m >>= f)
>>=-Tells (ok a) f h h' = h' a
>>=-Tells (err e) f h h' = h

module _ ⦃nrcs : TryFromPrimitive negative_response_code_as_u8⦄ where
  parse_for_error-Tells : (raw : List ℕ) → Tells (parse_for_error raw)
  unfolding parse_for_error
  parse_for_error-Tells [] = tt
  parse_for_error-Tells (sid ∷ []) = ground arith
  parse_for_error-Tells (sid ∷ s ∷ []) = ground arith
  parse_for_error-Tells (sid ∷ s ∷ c ∷ rest) = elim (Bool-cases (sid != 0x7F)) [
    | inl other ↦ rw other tt
    | inr own ↦ rw own (nrc_error-Tells s (nrcs.try_from c))
  ]

  module _ {W : Type 0} (tokio : Tokio W) (self : UdsClient W) (w : W) where
    Concludes-IsRaised :
        (sid : ℕ) (args : List ℕ) {e : UdsError} {v : W}
        → Concludes tokio self sid args w (err e) v
        → IsRaised e
    Concludes-IsRaised sid args (unsent below attempt failed) = tt
    Concludes-IsRaised sid args (unanswered below attempt sent failed) = tt
    Concludes-IsRaised sid args (unreadable {raw} below exchange failed bad) =
        rw failed at (parse_for_error-Tells raw)
    Concludes-IsRaised sid args (foreign below exchange rejected ne) = tt
    Concludes-IsRaised sid args (refused below exchange rejected e) = tt
    Concludes-IsRaised sid args (gave_up last exchange rejected) = tt
    Concludes-IsRaised sid args (lost below exchange rejected timely) = tt
    Concludes-IsRaised sid args (elapsed below exchange rejected timely) = tt

    send_and_receive-Raises :
        (sid : ℕ) (args : List ℕ) → Raises (send_and_receive tokio self (sid ∷ args) w)
    send_and_receive-Raises sid args =
        Raises-of (send_and_receive tokio self (sid ∷ args) w) (λ e v h.
          Concludes-IsRaised sid args
            ((send_and_receive-iff-Concludes tokio self sid args w (err e) v).0 h))

    pub run_method-Raises :
        (parse : List ℕ → EcuResponseResult) (sid : ℕ) (args : List ℕ)
        → ((raw : List ℕ) → Blames raw (parse raw))
        → Raises (run_method tokio self parse (sid ∷ args) w)
    run_method-Raises parse sid args blames =
        await_call-Raises (send_and_receive tokio self (sid ∷ args) w) _
          (send_and_receive-Raises sid args) (λ raw v. Blames-Raises v (blames raw))

    pub read_memory-Raises :
        (identifier : ℕ) (address size : List ℕ)
        → Raises (read_memory_by_address tokio self identifier address size w)
    unfolding read_memory_by_address formulate_request
    read_memory-Raises identifier address size =
        await_call-Raises
          (send_and_receive tokio self (formulate_request identifier address size) w) _
          (send_and_receive-Raises 0x23 (identifier ∷ address ++ size))
          (λ raw v. parse_response-Raises raw v)
