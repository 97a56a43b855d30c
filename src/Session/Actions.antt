-- ===== src/Session/Actions.antt =====
-- What a method does to the world: one exchange of one request, or nothing.
use uds_rs.Base.{
  ℕ, ◌+◌, ◌*◌, ◌^◌, ◌≡◌, zero, suc, List, [], ◌∷◌, Result, ok, err, arith, MayPanic, value, panic,
  All, IsByte, IsU64, Option, inl, inr,
}
use mathlib.Core.Path.{subst}
use native.Mathlib.Decide.{dec_lt}
use uds_rs.NumEnum.{TryFromPrimitive}
use uds_rs.Definitions.{negative_response_code_as_u8, ServiceIdentifier}
use uds_rs.Response.{
  UdsResponse, UdsError, EcuResponseResult, reset_type_as_u8, SubFunction, sub_function_as_u8,
  dtc_format_as_u8,
}
use uds_rs.Client.{
  Call, done, panicked, never, exhausted, await_call, return_panic, Tokio, UdsClient,
  send_and_receive,
}
use uds_rs.Client.Conclusion.Reached.{done-injective}
use uds_rs.Client.Methods.{run_method}
use uds_rs.EcuReset.{ecu_reset, parse_ecu_reset_response}
use uds_rs.ClearDiagnosticInformation.{
  clear_diagnostic_information, parse_clear_diagnostic_information_response,
}
use uds_rs.WriteDataByIdentifier.{write_data_by_identifier, parse_write_data_by_identifier_response}
use uds_rs.DiagnosticSessionControl.{
  diagnostic_session_control, parse_diagnostic_session_control_response,
}
use uds_rs.ReadDataByIdentifier.{read_data_by_identifier}
use uds_rs.ReadMemoryByAddress.{
  read_memory_by_address, read_memory_by_address_simplified, formulate_request, parse_response,
}
use uds_rs.ReadMemoryByAddress.BigEndian.{be_bytes}
use uds_rs.ReadMemoryByAddress.Convert.{
  wanted, wanted-le, convert_from_simple_to_normal_fits, convert_from_simple_to_normal_short,
}
use uds_rs.ReadDtcInformation.{
  report_number_of_dtc_by_status_mask, report_dtc_by_status_mask,
  report_dtc_snapshot_record_by_dtc_number, report_dtc_ext_data_record_by_dtc_number,
  report_most_recent_confirmed_dtc, parse_report_number_of_dtc_by_status_mask_response,
  parse_report_dtcs, parse_report_dtc_snapshot_record_by_dtc_number_response,
  parse_report_dtc_ext_data_by_dtc_number_response,
}
use uds_rs.Services.Requests.{
  Requests, ecu_reset-Requests, session-Requests, clear-Requests, write-Requests, read-Requests,
  memory-Requests, mask-Requests, snapshot-Requests, ext_data-Requests, short-Requests,
}
use uds_rs.Session.{
  Action, reset, change_session, clear, write, read, read_memory, read_memory_simplified,
  number_of_dtc, dtcs, snapshot, extended, most_recent, IsValid, perform,
}

await_call_world :
    {W A B : Type 0} (c : Call W A) (k : A → W → Call W B) {x : Result B UdsError} {v : W}
    → ((a : A) (u : W) → k a u ≡ done x v → u ≡ v)
    → await_call c k ≡ done x v
    → (r : Result A UdsError) × (c ≡ done r v)
await_call_world (done (ok a) u) k h e = (ok a, λ i. done (ok a) (h a u e i))
await_call_world (done (err e') u) k h e = (err e', λ i. done (err e') ((done-injective e).1 i))
await_call_world (panicked u) k h e = cc
await_call_world never k h e = cc
await_call_world exhausted k h e = cc

return_panic_world :
    {W A : Type 0} (m : MayPanic (Result A UdsError)) (u : W) {x : Result A UdsError} {v : W}
    → return_panic m u ≡ done x v
    → u ≡ v
return_panic_world (value r) u e = (done-injective e).1
return_panic_world panic u e = cc

be_bytes-IsByte : (k n : ℕ) → All IsByte (be_bytes k n)
be_bytes-IsByte zero n = tt
be_bytes-IsByte (suc k) n = (omega arith, be_bytes-IsByte k n)

module _ ⦃nrcs : TryFromPrimitive negative_response_code_as_u8⦄ {W : Type 0} (tokio : Tokio W)
    (self : UdsClient W) where
  -- From one world to another by one exchange of a request of a service, or with no exchange.
  pub data Transmits (w : W) : W → Type 0 where
    idle : Transmits w w
    exchanged :
        {v : W} {r : Result (List ℕ) UdsError} (s : ServiceIdentifier) (request : List ℕ)
        → Requests s request
        → send_and_receive tokio self request w ≡ done r v
        → Transmits w v

  run_method-Transmits :
      (parse : List ℕ → EcuResponseResult) (s : ServiceIdentifier) (request : List ℕ) (w : W)
      {x : Result UdsResponse UdsError} {v : W}
      → Requests s request
      → run_method tokio self parse request w ≡ done x v
      → Transmits w v
  run_method-Transmits parse s request w own h =
      let (r, e) =
        await_call_world (send_and_receive tokio self request w) _ (λ raw u e. (done-injective e).1)
          h in
      exchanged s request own e

  read_memory-Transmits :
      (identifier : ℕ) (address size : List ℕ) (w : W) {x : Result UdsResponse UdsError} {v : W}
      → Requests ServiceIdentifier.read_memory_by_address
          (formulate_request identifier address size)
      → read_memory_by_address tokio self identifier address size w ≡ done x v
      → Transmits w v
  unfolding read_memory_by_address
  read_memory-Transmits identifier address size w own h =
      let request = formulate_request identifier address size in
      let (r, e) =
        await_call_world (send_and_receive tokio self request w) _
          (λ raw u e. return_panic_world (parse_response raw) u e) h in
      exchanged ServiceIdentifier.read_memory_by_address request own e

  simplified-Transmits :
      (address size : ℕ) (address_len size_len : Option ℕ) (w : W) {x : Result UdsResponse UdsError}
      {v : W}
      → IsU64 address
      → IsU64 size
      → read_memory_by_address_simplified tokio self address size address_len size_len w ≡ done x v
      → Transmits w v
  unfolding read_memory_by_address_simplified
  simplified-Transmits n n' l l' w range range' h = elim (dec_lt n (256 ^ wanted l n)) [
    | no over ↦
        let refused =
          convert_from_simple_to_normal_short n n' l l' range range' (inl (omega arith)) in
        subst (Transmits w) (done-injective (rw refused at h)).1 idle
    | yes fits ↦ elim (dec_lt n' (256 ^ wanted l' n')) [
      | no over ↦
          let refused =
            convert_from_simple_to_normal_short n n' l l' range range' (inr (omega arith)) in
          subst (Transmits w) (done-injective (rw refused at h)).1 idle
      | yes fits' ↦
          let made = convert_from_simple_to_normal_fits n n' l l' range range' fits fits' in
          let k = wanted l n in
          let m = wanted l' n' in
          let hk = wanted-le l n range in
          let hm = wanted-le l' n' range' in
          read_memory-Transmits (m * 16 + k) (be_bytes k n) (be_bytes m n') w
            (memory-Requests (m * 16 + k) (be_bytes k n) (be_bytes m n') (omega arith)
              (be_bytes-IsByte k n) (be_bytes-IsByte m n'))
            (rw made at h)
    ]
  ]

  module _ ⦃resets : TryFromPrimitive reset_type_as_u8⦄
      ⦃sub_functions : TryFromPrimitive sub_function_as_u8⦄
      ⦃formats : TryFromPrimitive dtc_format_as_u8⦄ (w : W) {x : Result UdsResponse UdsError}
      {v : W} where
    read-Transmits :
        (dids : List ℕ) → read_data_by_identifier tokio self dids w ≡ done x v → Transmits w v
    unfolding read_data_by_identifier
    read-Transmits [] h =
        run_method-Transmits _ ServiceIdentifier.read_data_by_identifier _ w (read-Requests []) h
    read-Transmits (did ∷ []) h =
        run_method-Transmits _ ServiceIdentifier.read_data_by_identifier _ w
          (read-Requests (did ∷ [])) h
    read-Transmits (did ∷ did' ∷ dids) h =
        run_method-Transmits _ ServiceIdentifier.read_data_by_identifier _ w
          (read-Requests (did ∷ did' ∷ dids)) h

    -- A call with valid arguments that returns has made at most one exchange, of a request of bytes that
    -- begins with the SID of a service.
    pub perform-Transmits :
        (a : Action) → IsValid a → perform tokio self a w ≡ done x v → Transmits w v
    unfolding ecu_reset diagnostic_session_control clear_diagnostic_information
        write_data_by_identifier report_number_of_dtc_by_status_mask report_dtc_by_status_mask
        report_dtc_snapshot_record_by_dtc_number report_dtc_ext_data_record_by_dtc_number
        report_most_recent_confirmed_dtc
    perform-Transmits (reset t) valid h =
        run_method-Transmits parse_ecu_reset_response ServiceIdentifier.ecu_reset _ w
          (ecu_reset-Requests t) h
    perform-Transmits (change_session n) valid h =
        run_method-Transmits parse_diagnostic_session_control_response
          ServiceIdentifier.diagnostic_session_control _ w (session-Requests n valid) h
    perform-Transmits (clear n) valid h =
        run_method-Transmits parse_clear_diagnostic_information_response
          ServiceIdentifier.clear_diagnostic_information _ w (clear-Requests n) h
    perform-Transmits (write did bytes) valid h =
        run_method-Transmits parse_write_data_by_identifier_response
          ServiceIdentifier.write_data_by_identifier _ w (write-Requests did bytes valid) h
    perform-Transmits (read dids) valid h = read-Transmits dids h
    perform-Transmits (read_memory identifier address size) (hi, ha, hs) h =
        read_memory-Transmits identifier address size w
          (memory-Requests identifier address size hi ha hs) h
    perform-Transmits (read_memory_simplified address size l l') (range, range') h =
        simplified-Transmits address size l l' w range range' h
    perform-Transmits (number_of_dtc mask) valid h =
        run_method-Transmits parse_report_number_of_dtc_by_status_mask_response
          ServiceIdentifier.read_dtc_information _ w
          (mask-Requests SubFunction.report_number_of_dtc_by_status_mask mask valid) h
    perform-Transmits (dtcs mask) valid h =
        run_method-Transmits parse_report_dtcs ServiceIdentifier.read_dtc_information _ w
          (mask-Requests SubFunction.report_dtc_by_status_mask mask valid) h
    perform-Transmits (snapshot dtc number) valid h =
        run_method-Transmits parse_report_dtc_snapshot_record_by_dtc_number_response
          ServiceIdentifier.read_dtc_information _ w
          (snapshot-Requests SubFunction.report_dtc_snapshot_record_by_dtc_number dtc number valid)
          h
    perform-Transmits (extended dtc number) valid h =
        run_method-Transmits parse_report_dtc_ext_data_by_dtc_number_response
          ServiceIdentifier.read_dtc_information _ w
          (ext_data-Requests SubFunction.report_dtc_ext_data_record_by_dtc_number dtc number valid)
          h
    perform-Transmits most_recent valid h =
        run_method-Transmits parse_report_dtcs ServiceIdentifier.read_dtc_information _ w
          (short-Requests SubFunction.report_most_recent_confirmed_dtc) h
