-- ===== src/ReadDtcInformation/Format.antt =====
-- What the client accepts as a list of DTCs.
use uds_rs.Base.{
  ℕ, List, [], ◌∷◌, ◌≡◌, ◌≢◌, ◌↔◌, ◌%◌, ok, err, arith, All, IsByte, length, Result, Option, none,
  some, >>=-eq-ok, ◌>>=◌, Bool-cases, inl, inr, ◌!=◌,
}
use mathlib.Core.Path.{subst}
use uds_rs.NumEnum.{TryFrom, variant, no_variant, TryFromPrimitive}
use uds_rs.Response.{
  UdsResponse, UdsError, parsed, SubFunction, sub_function_as_u8, DtcAndStatusRecord,
  ReportDtcsResponse, ReadDtcInformationResponse, or_incorrect,
}
use uds_rs.ReadDtcInformation.{dtcs_report, push_dtc_records, parse_report_dtcs}
use uds_rs.ReadDtcInformation.Records.{
  IsDtc, dtc_bytes, push_dtc_records-dtc_bytes, push_dtc_records_ok, push_dtc_records-invalid_iff,
}

-- The variants that hold a list of DTCs: the subfunction that each is for, and its content.
abbrev pub dtcs_of : ReadDtcInformationResponse → Option (SubFunction × ReportDtcsResponse)
dtcs_of (ReadDtcInformationResponse.report_dtc_by_status_mask r) =
    some (SubFunction.report_dtc_by_status_mask, r)
dtcs_of (ReadDtcInformationResponse.report_supported_dtc r) =
    some (SubFunction.report_supported_dtc, r)
dtcs_of (ReadDtcInformationResponse.report_first_test_failed_dtc r) =
    some (SubFunction.report_first_test_failed_dtc, r)
dtcs_of (ReadDtcInformationResponse.report_first_confirmed_dtc r) =
    some (SubFunction.report_first_confirmed_dtc, r)
dtcs_of (ReadDtcInformationResponse.report_most_recent_test_failed_dtc r) =
    some (SubFunction.report_most_recent_test_failed_dtc, r)
dtcs_of (ReadDtcInformationResponse.report_most_recent_confirmed_dtc r) =
    some (SubFunction.report_most_recent_confirmed_dtc, r)
dtcs_of (ReadDtcInformationResponse.report_mirror_memory_dtc_by_status_mask r) =
    some (SubFunction.report_mirror_memory_dtc_by_status_mask, r)
dtcs_of (ReadDtcInformationResponse.report_emissions_obd_dtc_by_status_mask r) =
    some (SubFunction.report_emissions_obd_dtc_by_status_mask, r)
dtcs_of (ReadDtcInformationResponse.report_dtc_with_permanent_status r) =
    some (SubFunction.report_dtc_with_permanent_status, r)
dtcs_of _ = none

dtcs_report-dtcs_of :
    (f : SubFunction) (r : ReportDtcsResponse) (report : ReadDtcInformationResponse)
    → dtcs_report f r ≡ ok report
    → dtcs_of report ≡ some (f, r)
unfolding dtcs_report
dtcs_report-dtcs_of f r report h = ground arith

dtcs_of-dtcs_report :
    (f : SubFunction) (r : ReportDtcsResponse) (report : ReadDtcInformationResponse)
    → dtcs_of report ≡ some (f, r)
    → dtcs_report f r ≡ ok report
unfolding dtcs_report
dtcs_of-dtcs_report f r report h = ground arith

module _ ⦃sub_functions : TryFromPrimitive sub_function_as_u8⦄ where
  abbrev pub Accepts : List ℕ → UdsResponse → Type 0
  Accepts message response =
      (f : SubFunction) × (mask : ℕ) × (records : List DtcAndStatusRecord)
      × (report : ReadDtcInformationResponse) × All IsDtc records
      × (message ≡ 0x59 ∷ sub_function_as_u8 f ∷ mask ∷ dtc_bytes records)
      × (dtcs_of report
          ≡ some
              (f, record { dtc_status_availability_mask = mask; dtc_and_status_records = records }))
      × (response ≡ UdsResponse.read_dtc_information (parsed report))

  or_incorrect_ok :
      (raw : List ℕ) (b : ℕ) {f : SubFunction}
      → or_incorrect raw (sub_functions.try_from b) ≡ ok f
      → sub_functions.try_from b ≡ variant f
  or_incorrect_ok raw b h = ground arith

  pub Accepts-parse :
      (f : SubFunction) (mask : ℕ) (records : List DtcAndStatusRecord)
      (report : ReadDtcInformationResponse)
      → All IsDtc records
      → dtcs_of report
        ≡ some (f, record { dtc_status_availability_mask = mask; dtc_and_status_records = records })
      → parse_report_dtcs (0x59 ∷ sub_function_as_u8 f ∷ mask ∷ dtc_bytes records)
        ≡ ok (UdsResponse.read_dtc_information (parsed report))
  unfolding parse_report_dtcs
  Accepts-parse f mask records report dtcs e = rw (
    push_dtc_records-dtc_bytes (0x59 ∷ sub_function_as_u8 f ∷ mask ∷ dtc_bytes records) [] records
        dtcs,
    sub_functions.try_from-as_u8 f,
    dtcs_of-dtcs_report f _ report e,
  )

  parse-Accepts :
      (message : List ℕ) (response : UdsResponse)
      → All IsByte message
      → parse_report_dtcs message ≡ ok response
      → Accepts message response
  unfolding parse_report_dtcs
  parse-Accepts [] response b h = absurd (ground arith)
  parse-Accepts (_ ∷ []) response b h = absurd (ground arith)
  parse-Accepts (_ ∷ _ ∷ []) response b h = absurd (ground arith)
  parse-Accepts (sid ∷ t ∷ mask ∷ rest) response (_, (_, (_, b))) h =
      elim (Bool-cases (sid != 0x59)) [
        | inl foreign ↦ cc (rw foreign at h)
        | inr own ↦
            let message = sid ∷ t ∷ mask ∷ rest in
            let (out, e, h1) = >>=-eq-ok (push_dtc_records message [] rest) _ (rw own at h) in
            let (f, e1, h2) = >>=-eq-ok (or_incorrect message (sub_functions.try_from t)) _ h1 in
            let r : ReportDtcsResponse = record {
              dtc_status_availability_mask = mask;
              dtc_and_status_records = out;
            } in
            let (report, e2, h3) = >>=-eq-ok (dtcs_report f r) _ h2 in
            let (records, dtcs, whole, same) = push_dtc_records_ok message [] rest b e in
            let byte = sub_functions.as_u8-try_from t f (or_incorrect_ok message t e1) in
            (
              f,
              mask,
              records,
              report,
              dtcs,
              ground arith,
              subst
                  (λ l.
                    dtcs_of report
                    ≡ some (
                      f,
                      record { dtc_status_availability_mask = mask; dtc_and_status_records = l },
                    ))
                  same (dtcs_report-dtcs_of f r report e2),
              ground arith,
            )
      ]

  -- Of a message of bytes, the client accepts exactly one that holds a subfunction for lists of DTCs,
  -- a mask, and whole records of four bytes to its end. It returns the mask and those records, under
  -- the variant of the subfunction in the message.
  pub parse_report_dtcs-iff-Accepts :
      (message : List ℕ) (response : UdsResponse)
      → All IsByte message
      → (parse_report_dtcs message ≡ ok response) ↔ Accepts message response
  parse_report_dtcs-iff-Accepts message response b = (
    parse-Accepts message response b,
    λ (f, mask, records, report, dtcs, e, e', e'').
        rw (e, e'') (Accepts-parse f mask records report dtcs e'),
  )

  report_tail :
      (m : List ℕ) (mask : ℕ) (c : TryFrom SubFunction) (out : List DtcAndStatusRecord)
      → Result UdsResponse UdsError
  report_tail m mask c out = do
    f ← or_incorrect m c
    response ←
        dtcs_report f (record { dtc_status_availability_mask = mask; dtc_and_status_records = out })
    ok (UdsResponse.read_dtc_information (parsed response))

  report_tail-ne-invalid :
      (m : List ℕ) (mask : ℕ) (c : TryFrom SubFunction) (out : List DtcAndStatusRecord)
      → report_tail m mask c out ≢ err (UdsError.invalid_length m)
  unfolding report_tail dtcs_report
  report_tail-ne-invalid m mask (no_variant n) out h = ground arith
  report_tail-ne-invalid m mask (variant f) out h = ground arith

  invalid_of_tail :
      (m : List ℕ) (mask : ℕ) (c : TryFrom SubFunction)
      (p : Result (List DtcAndStatusRecord) UdsError)
      → (p >>= report_tail m mask c) ≡ err (UdsError.invalid_length m)
      → p ≡ err (UdsError.invalid_length m)
  invalid_of_tail m mask c (ok out) h = absurd (report_tail-ne-invalid m mask c out h)
  invalid_of_tail m mask c (err e) h = ground arith

  -- Behind the SID, the subfunction and the mask, the client refuses the length exactly when the
  -- records are cut off inside one, whatever the subfunction is.
  pub parse_report_dtcs-invalid_length_iff :
      (t mask : ℕ) (rest : List ℕ)
      → (parse_report_dtcs (0x59 ∷ t ∷ mask ∷ rest)
          ≡ err (UdsError.invalid_length (0x59 ∷ t ∷ mask ∷ rest)))
        ↔ (length rest % 4 ≢ 0)
  unfolding parse_report_dtcs report_tail
  parse_report_dtcs-invalid_length_iff t mask rest =
      let m = 0x59 ∷ t ∷ mask ∷ rest in
      let whole = push_dtc_records-invalid_iff m [] rest in
      (
        λ h.
            whole.0
              (invalid_of_tail m mask (sub_functions.try_from t) (push_dtc_records m [] rest) h),
        λ cut. rw (whole.1 cut),
      )
