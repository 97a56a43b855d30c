-- ===== src/UnitTests/Client.antt =====
-- src/uds.rs: its unit test.
use uds_rs.Base.{◌≡◌, ◌≢◌, refl, ap, [], ◌∷◌, err, arith}
use uds_rs.NumEnum.{TryFrom, variant, no_variant, TryFromPrimitive}
use uds_rs.Definitions.{NegativeResponseCode, negative_response_code_as_u8, negative_response_sid}
use uds_rs.Response.{UdsError}
use uds_rs.Client.{parse_for_error}

not_a_code : (code : NegativeResponseCode) → negative_response_code_as_u8 code ≢ 0xFF
not_a_code code h = ground arith

module _ ⦃nrcs : TryFromPrimitive negative_response_code_as_u8⦄ where
  unknown : (c : TryFrom NegativeResponseCode) → nrcs.try_from 0xFF ≡ c → c ≡ no_variant 0xFF
  unknown (variant code) e = absurd (not_a_code code (nrcs.as_u8-try_from 0xFF code e))
  unknown (no_variant n) e = ap no_variant (nrcs.number_lem 0xFF n e)

  abbrev TestParseForErrorWrongNrc : Type 0
  TestParseForErrorWrongNrc =
      parse_for_error (negative_response_sid ∷ 0x11 ∷ 0xFF ∷ [])
      ≡ err (UdsError.unknown_nrc 0x11 0xFF)

  test_parse_for_error_wrong_nrc : TestParseForErrorWrongNrc
  unfolding parse_for_error
  test_parse_for_error_wrong_nrc = rw (unknown (nrcs.try_from 0xFF) refl)
