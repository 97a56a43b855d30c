-- ===== src/Server/Dtcs.antt =====
-- ClearDiagnosticInformation and ReadDTCInformation with a server that stores DTCs.
use uds_rs.Base.{
  ℕ, zero, suc, ◌*◌, ◌/◌, ◌%◌, ◌≡◌, ◌∙◌, refl, sym, ap, List, [], ◌∷◌, map, ok, All, Bool, true,
  false, Bool-cases, inl, inr, ◌==◌, if◌then◌else◌,
}
use mathlib.Core.Path.{subst}
use uds_rs.NumEnum.{TryFromPrimitive}
use uds_rs.Definitions.{negative_response_code_as_u8}
use uds_rs.Response.{
  UdsResponse, parsed, SubFunction, sub_function_as_u8, DtcAndStatusRecord,
  ReadDtcInformationResponse,
}
use uds_rs.Client.{done, Tokio, UdsClient}
use uds_rs.Client.Sound.{Served}
use uds_rs.Client.Methods.{run_method-iff-Served}
use uds_rs.ClearDiagnosticInformation.{
  clear_diagnostic_information, parse_clear_diagnostic_information_response,
}
use uds_rs.ReadDtcInformation.{report_dtc_by_status_mask, parse_report_dtcs}
use uds_rs.ReadDtcInformation.Records.{IsDtc, dtc_bytes}
use uds_rs.ReadDtcInformation.Format.{Accepts-parse}

abbrev pub dtcs_response : ℕ → List DtcAndStatusRecord → UdsResponse
dtcs_response mask records = UdsResponse.read_dtc_information (
    parsed (
      ReadDtcInformationResponse.report_dtc_by_status_mask
        (record { dtc_status_availability_mask = mask; dtc_and_status_records = records })))

-- Of two bytes: whether one of their lowest `k` bits is set in both.
abbrev pub overlap : ℕ → ℕ → ℕ → Bool
overlap zero a b = false
overlap (suc k) a b =
    let rest = overlap k (a / 2) (b / 2) in if a % 2 * (b % 2) == 1 then true else rest

-- The DTCs whose status shares a bit with the mask.
abbrev pub select : ℕ → List DtcAndStatusRecord → List DtcAndStatusRecord
select mask [] = []
select mask (r ∷ records) =
    let rest = select mask records in if overlap 8 r.status_of_dtc mask then r ∷ rest else rest

-- A DTC that is supported is still there after it was cleared, with a status of its own.
abbrev pub reset_status : ℕ → DtcAndStatusRecord → DtcAndStatusRecord
reset_status status r = record { dtc = r.dtc; status_of_dtc = status }

if-IsDtc :
    (test : Bool) (xs ys : List DtcAndStatusRecord)
    → All IsDtc xs
    → All IsDtc ys
    → All IsDtc (if test then xs else ys)
if-IsDtc true xs ys h h' = h
if-IsDtc false xs ys h h' = h'

select-IsDtc :
    (mask : ℕ) (records : List DtcAndStatusRecord)
    → All IsDtc records
    → All IsDtc (select mask records)
select-IsDtc mask [] h = tt
select-IsDtc mask (r ∷ records) (hr, h) =
    let rest = select-IsDtc mask records h in
    if-IsDtc (overlap 8 r.status_of_dtc mask) (r ∷ select mask records) (select mask records)
      (hr, rest) rest

map-reset-IsDtc :
    (status : ℕ) (records : List DtcAndStatusRecord)
    → All IsDtc records
    → All IsDtc (map (reset_status status) records)
map-reset-IsDtc status [] h = tt
map-reset-IsDtc status (r ∷ records) (hr, h) = (hr, map-reset-IsDtc status records h)

if-true : {A : Type 0} (test : Bool) (x y : A) → test ≡ true → (if test then x else y) ≡ x
if-true true x y e = refl
if-true false x y e = cc

if-false : {A : Type 0} (test : Bool) (x y : A) → test ≡ false → (if test then x else y) ≡ y
if-false true x y e = cc
if-false false x y e = refl

-- Where all have the same status, a mask selects all or none.
module _ (mask status : ℕ) where
  select-all :
      (records : List DtcAndStatusRecord)
      → overlap 8 status mask ≡ true
      → select mask (map (reset_status status) records) ≡ map (reset_status status) records
  select-all [] e = refl
  select-all (r ∷ records) e =
      if-true (overlap 8 status mask) _ _ e
      ∙ ap (λ rest. reset_status status r ∷ rest) (select-all records e)

  select-none :
      (records : List DtcAndStatusRecord)
      → overlap 8 status mask ≡ false
      → select mask (map (reset_status status) records) ≡ []
  select-none [] e = refl
  select-none (r ∷ records) e = if-false (overlap 8 status mask) _ _ e ∙ select-none records e

  select-reset :
      (records : List DtcAndStatusRecord)
      → select mask (map (reset_status status) records)
        ≡ (if overlap 8 status mask then map (reset_status status) records else [])
  select-reset records = elim (Bool-cases (overlap 8 status mask)) [
    | inl e ↦ select-all records e ∙ sym (if-true (overlap 8 status mask) _ _ e)
    | inr e ↦ select-none records e ∙ sym (if-false (overlap 8 status mask) _ _ e)
  ]

module _ ⦃nrcs : TryFromPrimitive negative_response_code_as_u8⦄ {W : Type 0} (tokio : Tokio W)
    (self : UdsClient W) where
  -- The server stores DTCs with their status. It reports those whose status shares a bit with the mask,
  -- with the mask of the bits that it supports. On the group 0xFFFFFF it resets the status of all.
  pub record IsDtcMemory (stored : W → List DtcAndStatusRecord) (supported fresh : ℕ) : Type 0 where
    pub cleared : W → W
    pub reported : W → ℕ → W
    pub clears :
        (w : W) → Served tokio self 0x14 (0xFF ∷ 0xFF ∷ 0xFF ∷ []) w (0x54 ∷ []) (cleared w)
    pub resets : (w : W) → stored (cleared w) ≡ map (reset_status fresh) (stored w)
    pub reports :
        (w : W) (mask : ℕ)
        → Served tokio self 0x19
            (0x02 ∷ mask ∷ [])
            w
            (0x59 ∷ 0x02 ∷ supported ∷ dtc_bytes (select mask (stored w)))
            (reported w mask)

  report_lem :
      ⦃sub_functions : TryFromPrimitive sub_function_as_u8⦄ (w v : W) (mask available : ℕ)
      (records : List DtcAndStatusRecord)
      → All IsDtc records
      → Served tokio self 0x19 (0x02 ∷ mask ∷ []) w (0x59 ∷ 0x02 ∷ available ∷ dtc_bytes records) v
      → report_dtc_by_status_mask tokio self mask w ≡ done (ok (dtcs_response available records)) v
  unfolding report_dtc_by_status_mask
  report_lem w v mask available records dtcs served =
      (run_method-iff-Served tokio self parse_report_dtcs 0x19 (0x02 ∷ mask ∷ []) w _ v).1 (
        _,
        served,
        Accepts-parse SubFunction.report_dtc_by_status_mask available records _ dtcs refl,
      )

  -- With such a server, the report by a status mask returns exactly the DTCs whose status shares a bit
  -- with the mask, in the server's order. After the group 0xFFFFFF was cleared it returns all DTCs with
  -- the fresh status, if that shares a bit with the mask, and none if not.
  pub clear_then_report :
      ⦃sub_functions : TryFromPrimitive sub_function_as_u8⦄ {stored : W → List DtcAndStatusRecord}
      {supported fresh : ℕ} (server : IsDtcMemory stored supported fresh) (w : W) (mask : ℕ)
      → All IsDtc (stored w)
      → (report_dtc_by_status_mask tokio self mask w
          ≡ done (ok (dtcs_response supported (select mask (stored w)))) (server.reported w mask))
        × (clear_diagnostic_information tokio self 0xFFFFFF w
            ≡ done (ok UdsResponse.clear_diagnostic_information) (server.cleared w))
        × (report_dtc_by_status_mask tokio self mask (server.cleared w)
            ≡ done
                (ok (
                  dtcs_response supported
                    (if overlap 8 fresh mask then map (reset_status fresh) (stored w) else [])))
                (server.reported (server.cleared w) mask))
  unfolding clear_diagnostic_information parse_clear_diagnostic_information_response
  clear_then_report {stored = stored} {supported = supported} {fresh = fresh} server w mask dtcs =
      let after = server.cleared w in
      let left = map (reset_status fresh) (stored w) in
      let all_or_none = ap (select mask) (server.resets w) ∙ select-reset mask fresh (stored w) in
      (
        report_lem w (server.reported w mask) mask supported (select mask (stored w))
            (select-IsDtc mask (stored w) dtcs) (server.reports w mask),
        (run_method-iff-Served tokio self parse_clear_diagnostic_information_response 0x14
              (0xFF ∷ 0xFF ∷ 0xFF ∷ []) w _ after).1
            (_, server.clears w, refl),
        report_lem after (server.reported after mask) mask supported _
            (if-IsDtc (overlap 8 fresh mask) left [] (map-reset-IsDtc fresh (stored w) dtcs) tt)
            (subst
              (λ records.
                Served tokio self 0x19 (0x02 ∷ mask ∷ []) after
                  (0x59 ∷ 0x02 ∷ supported ∷ dtc_bytes records) (server.reported after mask))
              all_or_none (server.reports after mask)),
      )
