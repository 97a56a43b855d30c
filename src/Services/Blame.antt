-- ===== src/Services/Blame.antt =====
-- The message that the errors of the parse functions carry.
use uds_rs.Base.{
  ℕ, zero, suc, List, [], ◌∷◌, ◌≡◌, refl, Result, ok, err, ◌>>=◌, ◌!=◌, Bool, true, false, u16_from,
  some, none, if◌then◌else◌,
}
use uds_rs.NumEnum.{TryFrom, variant, no_variant, TryFromPrimitive}
use uds_rs.Response.{
  UdsError, ResetType, reset_type_as_u8, SubFunction, sub_function_as_u8, dtc_format_as_u8,
  DtcAndStatusRecord, DataRecord, ReportNumberOfDtcByMaskResponse, ReportDtcsResponse, next_or,
  check_sid, or_incorrect,
}
use uds_rs.EcuReset.{parse_ecu_reset_response, power_down}
use uds_rs.ClearDiagnosticInformation.{parse_clear_diagnostic_information_response}
use uds_rs.WriteDataByIdentifier.{parse_write_data_by_identifier_response}
use uds_rs.DiagnosticSessionControl.{parse_diagnostic_session_control_response}
use uds_rs.ReadDataByIdentifier.{
  push_exactly, push_all, next_record, parse_records, parse_read_data_by_identifier_response,
  parse_read_data_by_identifier_tuple_response, u32_max,
}
use uds_rs.ReadDtcInformation.{
  push_dtc_records, number_report, dtcs_report, parse_report_number_of_dtc_by_status_mask_response,
  parse_report_dtcs, parse_report_dtc_snapshot_record_by_dtc_number_response,
  parse_report_dtc_ext_data_by_dtc_number_response,
}

-- The error is one of those that a parser may raise, and if it carries a message, then that one.
abbrev pub Carries : List ℕ → UdsError → Type 0
Carries raw (UdsError.sid_mismatch expected received m) = m ≡ raw
Carries raw (UdsError.did_mismatch expected received m) = m ≡ raw
Carries raw (UdsError.invalid_length m) = m ≡ raw
Carries raw (UdsError.response_incorrect m) = m ≡ raw
Carries raw UdsError.response_empty = Unit
Carries raw UdsError.invalid_argument = Unit
Carries raw e = ⊥

-- If the parser fails, its error carries the message.
pub data Blames {A : Type 0} (raw : List ℕ) : Result A UdsError → Type 0 where
  fine : (a : A) → Blames raw (ok a)
  carries : (e : UdsError) → Carries raw e → Blames raw (err e)

module _ (raw : List ℕ) where
  >>=-Blames :
      {A B : Type 0} {m : Result A UdsError} {f : A → Result B UdsError}
      → Blames raw m
      → ((a : A) → Blames raw (f a))
      → Blames raw (m >>= f)
  >>=-Blames (fine a) h = h a
  >>=-Blames (carries e c) h = carries e c

  next_or-Blames : (e : UdsError) (rest : List ℕ) → Carries raw e → Blames raw (next_or e rest)
  next_or-Blames e [] h = carries e h
  next_or-Blames e (b ∷ rest) h = fine (b, rest)

  -- A byte is taken, or the message is too short.
  next-Blames : (rest : List ℕ) → Blames raw (next_or (UdsError.invalid_length raw) rest)
  next-Blames rest = next_or-Blames (UdsError.invalid_length raw) rest refl

  if-Blames :
      {A : Type 0} (b : Bool) {x y : Result A UdsError}
      → Blames raw x
      → Blames raw y
      → Blames raw (if b then x else y)
  if-Blames true h h' = h
  if-Blames false h h' = h'

  check_sid-Blames :
      (e : UdsError) (expected : ℕ) → Carries raw e → Blames raw (check_sid e expected raw)
  unfolding check_sid
  check_sid-Blames e expected h = >>=-Blames (next_or-Blames e raw h) (λ p.
      if-Blames (p.0 != expected) (carries (UdsError.sid_mismatch expected p.0 raw) refl)
        (fine p.1))

  or_incorrect-Blames : {A : Type 0} (c : TryFrom A) → Blames raw (or_incorrect raw c)
  or_incorrect-Blames (variant a) = fine a
  or_incorrect-Blames (no_variant n) = carries (UdsError.response_incorrect raw) refl

  power_down-Blames : (t : ResetType) (rest : List ℕ) → Blames raw (power_down raw t rest)
  power_down-Blames ResetType.enable_rapid_power_shut_down rest =
      >>=-Blames (next-Blames rest) (λ p. fine (some p.0))
  power_down-Blames t rest = fine none

  number_report-Blames :
      (f : SubFunction) (r : ReportNumberOfDtcByMaskResponse) → Blames raw (number_report f r)
  unfolding number_report
  number_report-Blames SubFunction.report_number_of_dtc_by_status_mask r = fine _
  number_report-Blames SubFunction.report_number_of_dtc_by_severity_mask_record r = fine _
  number_report-Blames f r = search (fine, carries)

  dtcs_report-Blames : (f : SubFunction) (r : ReportDtcsResponse) → Blames raw (dtcs_report f r)
  unfolding dtcs_report
  dtcs_report-Blames SubFunction.report_dtc_by_status_mask r = fine _
  dtcs_report-Blames f r = search (fine, carries)

  push_dtc_records-Blames :
      (rest : List ℕ) (acc : List DtcAndStatusRecord) → Blames raw (push_dtc_records raw acc rest)
  unfolding push_dtc_records
  push_dtc_records-Blames [] acc = fine acc
  push_dtc_records-Blames (_ ∷ []) acc = carries (UdsError.invalid_length raw) refl
  push_dtc_records-Blames (_ ∷ _ ∷ []) acc = carries (UdsError.invalid_length raw) refl
  push_dtc_records-Blames (_ ∷ _ ∷ _ ∷ []) acc = carries (UdsError.invalid_length raw) refl
  push_dtc_records-Blames (high ∷ middle ∷ low ∷ status ∷ rest) acc = push_dtc_records-Blames rest _

  push_exactly-Blames :
      (len : ℕ) (acc rest : List ℕ)
      → Blames raw (push_exactly (UdsError.invalid_length raw) len acc rest)
  unfolding push_exactly
  push_exactly-Blames zero acc rest = fine (acc, rest)
  push_exactly-Blames (suc len) acc [] = carries (UdsError.invalid_length raw) refl
  push_exactly-Blames (suc len) acc (x ∷ rest) = push_exactly-Blames len _ rest

  next_record-Blames : (did len : ℕ) (rest : List ℕ) → Blames raw (next_record raw did len rest)
  unfolding next_record
  next_record-Blames did len rest = >>=-Blames (next-Blames rest) λ (msb, rest).
      >>=-Blames (next-Blames rest) λ (lsb, rest).
        if-Blames (did != u16_from msb lsb)
          (carries (UdsError.did_mismatch did (u16_from msb lsb) raw) refl)
          (>>=-Blames
            (if-Blames (len != u32_max) (push_exactly-Blames len [] rest) (fine (push_all [] rest)))
            (λ p. fine _))

  parse_records-Blames :
      (requested : List (ℕ × ℕ)) (acc : List DataRecord) (rest : List ℕ)
      → Blames raw (parse_records raw acc requested rest)
  unfolding parse_records
  parse_records-Blames [] acc rest = fine acc
  parse_records-Blames ((did, len) ∷ requested) acc rest =
      >>=-Blames (next_record-Blames did len rest) (λ p. parse_records-Blames requested _ p.1)

  module _ ⦃resets : TryFromPrimitive reset_type_as_u8⦄ where
    pub ecu_reset-Blames : Blames raw (parse_ecu_reset_response raw)
    unfolding parse_ecu_reset_response
    ecu_reset-Blames = >>=-Blames (check_sid-Blames _ _ tt) λ rest.
        >>=-Blames (next-Blames rest) λ (b, rest).
          >>=-Blames (or_incorrect-Blames (resets.try_from b))
            λ t. >>=-Blames (power_down-Blames t rest) λ time. fine _

  pub clear-Blames : Blames raw (parse_clear_diagnostic_information_response raw)
  unfolding parse_clear_diagnostic_information_response
  clear-Blames = >>=-Blames (check_sid-Blames _ _ tt) λ rest. fine _

  pub write-Blames : Blames raw (parse_write_data_by_identifier_response raw)
  unfolding parse_write_data_by_identifier_response
  write-Blames =
      >>=-Blames (check_sid-Blames _ _ tt)
        λ rest. >>=-Blames (next-Blames rest) λ (_, rest). >>=-Blames (next-Blames rest) λ p. fine _

  pub session-Blames : Blames raw (parse_diagnostic_session_control_response raw)
  unfolding parse_diagnostic_session_control_response
  session-Blames = >>=-Blames (check_sid-Blames _ _ tt) λ rest.
      >>=-Blames (next-Blames rest) λ (_, rest). >>=-Blames (next-Blames rest) λ (_, rest).
        >>=-Blames (next-Blames rest) λ (_, rest).
          >>=-Blames (next-Blames rest) λ (_, rest). >>=-Blames (next-Blames rest) λ p. fine _

  pub read-Blames : Blames raw (parse_read_data_by_identifier_response raw)
  unfolding parse_read_data_by_identifier_response
  read-Blames = >>=-Blames (check_sid-Blames _ _ tt) λ rest. fine _

  pub tuple-Blames :
      (requested : List (ℕ × ℕ))
      → Blames raw (parse_read_data_by_identifier_tuple_response requested raw)
  unfolding parse_read_data_by_identifier_tuple_response
  tuple-Blames requested =
      >>=-Blames (check_sid-Blames _ _ refl)
        λ rest. >>=-Blames (parse_records-Blames requested [] rest) λ records. fine _

  pub snapshot-Blames : Blames raw (parse_report_dtc_snapshot_record_by_dtc_number_response raw)
  unfolding parse_report_dtc_snapshot_record_by_dtc_number_response
  snapshot-Blames = >>=-Blames (check_sid-Blames _ _ tt) λ rest. fine _

  pub ext_data-Blames : Blames raw (parse_report_dtc_ext_data_by_dtc_number_response raw)
  unfolding parse_report_dtc_ext_data_by_dtc_number_response
  ext_data-Blames = >>=-Blames (check_sid-Blames _ _ tt) λ rest. fine _

  module _ ⦃sub_functions : TryFromPrimitive sub_function_as_u8⦄ where
    pub number-Blames :
        ⦃formats : TryFromPrimitive dtc_format_as_u8⦄
        → Blames raw (parse_report_number_of_dtc_by_status_mask_response raw)
    unfolding parse_report_number_of_dtc_by_status_mask_response
    number-Blames ⦃formats⦄ = >>=-Blames (check_sid-Blames _ _ tt) λ rest.
        >>=-Blames (next-Blames rest) λ (b, rest).
          >>=-Blames (or_incorrect-Blames (sub_functions.try_from b)) λ f.
            >>=-Blames (next-Blames rest) λ (_, rest). >>=-Blames (next-Blames rest) λ (b, rest).
              >>=-Blames (or_incorrect-Blames (formats.try_from b)) λ _.
                >>=-Blames (next-Blames rest) λ (_, rest).
                  >>=-Blames (next-Blames rest)
                    λ _. >>=-Blames (number_report-Blames f _) λ report. fine _

    pub dtcs-Blames : Blames raw (parse_report_dtcs raw)
    unfolding parse_report_dtcs
    dtcs-Blames = >>=-Blames (check_sid-Blames _ _ tt) λ rest.
        >>=-Blames (next-Blames rest) λ (t, rest). >>=-Blames (next-Blames rest) λ (_, rest).
          >>=-Blames (push_dtc_records-Blames rest []) λ records.
            >>=-Blames (or_incorrect-Blames (sub_functions.try_from t))
              λ f. >>=-Blames (dtcs_report-Blames f _) λ report. fine _

  -- Whatever the response is, each of the ten parse functions that return an error value fails, if it
  -- fails, with a mismatch of the SID or of an identifier, an invalid length or an incorrect response,
  -- which carry this response, whole, or with ResponseEmpty or InvalidArgument.
  pub parsers-Blames :
      ⦃resets : TryFromPrimitive reset_type_as_u8⦄
      ⦃sub_functions : TryFromPrimitive sub_function_as_u8⦄
      ⦃formats : TryFromPrimitive dtc_format_as_u8⦄
      → (requested : List (ℕ × ℕ))
      → Blames raw (parse_ecu_reset_response raw)
        × Blames raw (parse_clear_diagnostic_information_response raw)
        × Blames raw (parse_write_data_by_identifier_response raw)
        × Blames raw (parse_diagnostic_session_control_response raw)
        × Blames raw (parse_read_data_by_identifier_response raw)
        × Blames raw (parse_read_data_by_identifier_tuple_response requested raw)
        × Blames raw (parse_report_dtc_snapshot_record_by_dtc_number_response raw)
        × Blames raw (parse_report_dtc_ext_data_by_dtc_number_response raw)
        × Blames raw (parse_report_number_of_dtc_by_status_mask_response raw)
        × Blames raw (parse_report_dtcs raw)
  parsers-Blames requested = (
    ecu_reset-Blames,
    clear-Blames,
    write-Blames,
    session-Blames,
    read-Blames,
    tuple-Blames requested,
    snapshot-Blames,
    ext_data-Blames,
    number-Blames,
    dtcs-Blames,
  )
