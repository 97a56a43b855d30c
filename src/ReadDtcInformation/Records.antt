-- ===== src/ReadDtcInformation/Records.antt =====
-- The records of DTCs in a response: four bytes each.
use uds_rs.Base.{
  ℕ, List, [], ◌∷◌, ◌++◌, ◌≡◌, ◌≢◌, ◌↔◌, ◌∙◌, ◌<◌, ◌^◌, ◌%◌, ◌/◌, refl, ap, ok, err, arith, All,
  IsByte, be_24, length, u32_from,
}
use mathlib.Core.List.{append_assoc, append-nil}
use uds_rs.Response.{UdsError, DtcAndStatusRecord}
use uds_rs.ReadDtcInformation.{push_dtc_records}

-- A DTC has 24 bits.
abbrev pub IsDtc : DtcAndStatusRecord → Type 0
IsDtc r = r.dtc < 2 ^ 24

abbrev pub dtc_bytes : List DtcAndStatusRecord → List ℕ
dtc_bytes [] = []
dtc_bytes (r ∷ records) = be_24 r.dtc ++ (r.status_of_dtc ∷ dtc_bytes records)

u32_from-be_24 : (n : ℕ) → n < 2 ^ 24 → u32_from (n / 65536) (n / 256 % 256) (n % 256) ≡ n
u32_from-be_24 n h = omega arith

module _ (raw : List ℕ) where
  pub push_dtc_records-dtc_bytes :
      (acc records : List DtcAndStatusRecord)
      → All IsDtc records
      → push_dtc_records raw acc (dtc_bytes records) ≡ ok (acc ++ records)
  unfolding push_dtc_records
  push_dtc_records-dtc_bytes acc [] h = rw append-nil
  push_dtc_records-dtc_bytes acc (r ∷ records) (hr, h) =
      ap
        (λ n.
          push_dtc_records raw (acc ++ (record { dtc = n; status_of_dtc = r.status_of_dtc } ∷ []))
            (dtc_bytes records))
        (u32_from-be_24 r.dtc hr)
      ∙ push_dtc_records-dtc_bytes (acc ++ (r ∷ [])) records h
      ∙ ap ok (append_assoc acc (r ∷ []) records)

  pub push_dtc_records_ok :
      (acc : List DtcAndStatusRecord) (rest : List ℕ) {out : List DtcAndStatusRecord}
      → All IsByte rest
      → push_dtc_records raw acc rest ≡ ok out
      → (records : List DtcAndStatusRecord) × All IsDtc records
        × (rest ≡ dtc_bytes records)
        × (out ≡ acc ++ records)
  unfolding push_dtc_records
  push_dtc_records_ok acc [] b h = ([], tt, refl, rw append-nil (ground arith))
  push_dtc_records_ok acc (_ ∷ []) b h = absurd (ground arith)
  push_dtc_records_ok acc (_ ∷ _ ∷ []) b h = absurd (ground arith)
  push_dtc_records_ok acc (_ ∷ _ ∷ _ ∷ []) b h = absurd (ground arith)
  push_dtc_records_ok acc (high ∷ middle ∷ low ∷ status ∷ rest) (b1, (b2, (b3, (b4, b)))) h =
      let r : DtcAndStatusRecord = record {
        dtc = u32_from high middle low;
        status_of_dtc = status;
      } in
      let (records, dtcs, whole, same) = push_dtc_records_ok (acc ++ (r ∷ [])) rest b h in
      let e1 : high ≡ r.dtc / 65536 = omega arith in
      let e2 : middle ≡ r.dtc / 256 % 256 = omega arith in
      let e3 : low ≡ r.dtc % 256 = omega arith in
      (
        r ∷ records,
        (omega arith, dtcs),
        λ i. e1 i ∷ e2 i ∷ e3 i ∷ status ∷ whole i,
        same ∙ append_assoc acc (r ∷ []) records,
      )

  -- The loop refuses the records exactly when they are no multiple of four bytes.
  pub push_dtc_records-invalid_iff :
      (acc : List DtcAndStatusRecord) (rest : List ℕ)
      → (push_dtc_records raw acc rest ≡ err (UdsError.invalid_length raw)) ↔ (length rest % 4 ≢ 0)
  unfolding push_dtc_records
  push_dtc_records-invalid_iff acc [] = (λ h. absurd (ground arith), λ h. absurd (h refl))
  push_dtc_records-invalid_iff acc (_ ∷ []) = (λ h. omega arith, λ h. refl)
  push_dtc_records-invalid_iff acc (_ ∷ _ ∷ []) = (λ h. omega arith, λ h. refl)
  push_dtc_records-invalid_iff acc (_ ∷ _ ∷ _ ∷ []) = (λ h. omega arith, λ h. refl)
  push_dtc_records-invalid_iff acc (high ∷ middle ∷ low ∷ status ∷ rest) =
      let ih =
        push_dtc_records-invalid_iff
          (acc ++ (record { dtc = u32_from high middle low; status_of_dtc = status } ∷ [])) rest in
      (λ h. omega (arith, ih.0 h), λ h. ih.1 (omega arith))
