-- ===== src/ReadDtcInformation/Counts.antt =====
-- What the client accepts as a number of DTCs.
use uds_rs.Base.{
  ℕ, List, [], ◌∷◌, ◌++◌, ◌≡◌, ◌↔◌, ◌*◌, ◌+◌, ◌/◌, ◌%◌, ok, arith, All, IsByte, IsU16, be_16,
  u16_from, Option, none, some, >>=-eq-ok, Bool-cases, inl, inr, ◌!=◌,
}
use mathlib.Core.Path.{subst}
use uds_rs.NumEnum.{TryFrom, variant, no_variant, TryFromPrimitive}
use uds_rs.Response.{
  UdsResponse, parsed, SubFunction, sub_function_as_u8, DtcFormat, dtc_format_as_u8,
  ReportNumberOfDtcByMaskResponse, ReadDtcInformationResponse, or_incorrect,
}
use uds_rs.ReadDtcInformation.{number_report, parse_report_number_of_dtc_by_status_mask_response}

-- The variants that hold a number of DTCs: the subfunction that each is for, and its content.
abbrev pub number_of :
    ReadDtcInformationResponse → Option (SubFunction × ReportNumberOfDtcByMaskResponse)
number_of (ReadDtcInformationResponse.report_number_of_dtc_by_status_mask r) =
    some (SubFunction.report_number_of_dtc_by_status_mask, r)
number_of (ReadDtcInformationResponse.report_number_of_dtc_by_severity_mask_record r) =
    some (SubFunction.report_number_of_dtc_by_severity_mask_record, r)
number_of (ReadDtcInformationResponse.report_number_of_mirror_memory_dtc_by_status_mask r) =
    some (SubFunction.report_number_of_mirror_memory_dtc_by_status_mask, r)
number_of (ReadDtcInformationResponse.report_number_of_emissions_obd_dtc_by_status_mask r) =
    some (SubFunction.report_number_of_emissions_obd_dtc_by_status_mask, r)
number_of _ = none

number_report-number_of :
    (f : SubFunction) (r : ReportNumberOfDtcByMaskResponse) (report : ReadDtcInformationResponse)
    → number_report f r ≡ ok report
    → number_of report ≡ some (f, r)
unfolding number_report
number_report-number_of f r report h = ground arith

number_of-number_report :
    (f : SubFunction) (r : ReportNumberOfDtcByMaskResponse) (report : ReadDtcInformationResponse)
    → number_of report ≡ some (f, r)
    → number_report f r ≡ ok report
unfolding number_report
number_of-number_report f r report h = ground arith

module _ ⦃sub_functions : TryFromPrimitive sub_function_as_u8⦄
    ⦃formats : TryFromPrimitive dtc_format_as_u8⦄ where
  abbrev pub Accepts : List ℕ → UdsResponse → Type 0
  Accepts message response =
      (f : SubFunction) × (mask : ℕ) × (format : DtcFormat) × (count : ℕ) × (rest : List ℕ)
      × (report : ReadDtcInformationResponse) × IsU16 count
      × (message
          ≡ (0x59 ∷ sub_function_as_u8 f ∷ mask ∷ dtc_format_as_u8 format ∷ be_16 count) ++ rest)
      × (number_of report
          ≡ some (
            f,
            record {
              dtc_status_availability_mask = mask;
              dtc_format_identifier = format;
              dtc_count = count;
            },
          ))
      × (response ≡ UdsResponse.read_dtc_information (parsed report))

  Accepts-parse :
      (f : SubFunction) (mask : ℕ) (format : DtcFormat) (count : ℕ) (rest : List ℕ)
      (report : ReadDtcInformationResponse)
      → IsU16 count
      → number_of report
        ≡ some (
          f,
          record {
            dtc_status_availability_mask = mask;
            dtc_format_identifier = format;
            dtc_count = count;
          },
        )
      → parse_report_number_of_dtc_by_status_mask_response
          ((0x59 ∷ sub_function_as_u8 f ∷ mask ∷ dtc_format_as_u8 format ∷ be_16 count) ++ rest)
        ≡ ok (UdsResponse.read_dtc_information (parsed report))
  unfolding parse_report_number_of_dtc_by_status_mask_response
  Accepts-parse f mask format count rest report h e =
      let c : u16_from (count / 256) (count % 256) ≡ count = omega arith in
      rw (
        sub_functions.try_from-as_u8 f,
        formats.try_from-as_u8 format,
        c,
        number_of-number_report f _ report e,
      )

  or_incorrect_ok :
      {A : Type 0} (raw : List ℕ) (c : TryFrom A) {a : A}
      → or_incorrect raw c ≡ ok a
      → c ≡ variant a
  or_incorrect_ok raw (variant a) h = ground arith
  or_incorrect_ok raw (no_variant n) h = absurd (ground arith)

  parse-Accepts :
      (message : List ℕ) (response : UdsResponse)
      → All IsByte message
      → parse_report_number_of_dtc_by_status_mask_response message ≡ ok response
      → Accepts message response
  unfolding parse_report_number_of_dtc_by_status_mask_response
  parse-Accepts [] response b h = absurd (ground arith)
  parse-Accepts (_ ∷ []) response b h = absurd (ground arith)
  parse-Accepts (_ ∷ _ ∷ []) response b h = absurd (ground arith)
  parse-Accepts (_ ∷ _ ∷ _ ∷ []) response b h = absurd (ground arith)
  parse-Accepts (_ ∷ _ ∷ _ ∷ _ ∷ []) response b h = absurd (ground arith)
  parse-Accepts (_ ∷ _ ∷ _ ∷ _ ∷ _ ∷ []) response b h = absurd (ground arith)
  parse-Accepts (sid ∷ t ∷ mask ∷ d ∷ msb ∷ lsb ∷ rest) response b h =
      elim (Bool-cases (sid != 0x59)) [
        | inl foreign ↦ cc (rw foreign at h)
        | inr own ↦
            let message = sid ∷ t ∷ mask ∷ d ∷ msb ∷ lsb ∷ rest in
            let (f, e1, h1) =
              >>=-eq-ok (or_incorrect message (sub_functions.try_from t)) _ (rw own at h) in
            let (format, e2, h2) = >>=-eq-ok (or_incorrect message (formats.try_from d)) _ h1 in
            let (report, e3, h3) = >>=-eq-ok (number_report f _) _ h2 in
            let t_byte = sub_functions.as_u8-try_from t f (or_incorrect_ok message _ e1) in
            let d_byte = formats.as_u8-try_from d format (or_incorrect_ok message _ e2) in
            let c : u16_from msb lsb ≡ msb * 256 + lsb = omega arith in
            (
              f,
              mask,
              format,
              msb * 256 + lsb,
              rest,
              report,
              omega arith,
              ground arith,
              subst
                  (λ n.
                    number_of report
                    ≡ some (
                      f,
                      record {
                        dtc_status_availability_mask = mask;
                        dtc_format_identifier = format;
                        dtc_count = n;
                      },
                    ))
                  c (number_report-number_of f _ report e3),
              ground arith,
            )
      ]

  -- Of a message of bytes, the client accepts exactly one that begins with a subfunction for numbers
  -- of DTCs, a mask, a DTC format and a number of 16 bits. It returns them under the variant of the
  -- subfunction in the message.
  pub parse_report_number_of_dtc-iff-Accepts :
      (message : List ℕ) (response : UdsResponse)
      → All IsByte message
      → (parse_report_number_of_dtc_by_status_mask_response message ≡ ok response)
        ↔ Accepts message response
  parse_report_number_of_dtc-iff-Accepts message response b = (
    parse-Accepts message response b,
    λ (f, mask, format, count, rest, report, h, e, e', e'').
        rw (e, e'') (Accepts-parse f mask format count rest report h e'),
  )
