-- ===== src/EcuReset/Format.antt =====
-- The messages of the service EcuReset as the standard lays them out, and what the client makes of
-- them.
use uds_rs.Base.{ℕ, List, [], ◌∷◌, ◌++◌, none, some, ◌≡◌, ◌↔◌, refl, ok, arith}
use uds_rs.NumEnum.{TryFrom, variant, no_variant, TryFromPrimitive}
use uds_rs.Response.{UdsResponse, parsed, ResetType, reset_type_as_u8, EcuResetResponse}
use uds_rs.EcuReset.{parse_ecu_reset_response}

-- A positive response: the power down time is part of one only.
abbrev pub positive_response : ResetType → ℕ → List ℕ
positive_response ResetType.enable_rapid_power_shut_down time = 0x51 ∷ 0x04 ∷ time ∷ []
positive_response reset_type time = 0x51 ∷ reset_type_as_u8 reset_type ∷ []

abbrev pub answer : ResetType → ℕ → EcuResetResponse
answer ResetType.enable_rapid_power_shut_down time = record {
  reset_type = ResetType.enable_rapid_power_shut_down;
  power_down_time = some time;
}
answer reset_type time = record { reset_type = reset_type; power_down_time = none }

module _ ⦃resets : TryFromPrimitive reset_type_as_u8⦄ where
  parse-positive_response :
      (t : ResetType) (time : ℕ) (rest : List ℕ)
      → parse_ecu_reset_response (positive_response t time ++ rest)
        ≡ ok (UdsResponse.ecu_reset (parsed (answer t time)))
  unfolding parse_ecu_reset_response
  parse-positive_response ResetType.enable_rapid_power_shut_down time rest =
      rw (resets.try_from-as_u8 ResetType.enable_rapid_power_shut_down)
  parse-positive_response t time rest = rw (resets.try_from-as_u8 t)

  -- The message begins with a positive response, and the result says what it holds.
  abbrev pub Accepts : List ℕ → UdsResponse → Type 0
  Accepts raw response =
      (t : ResetType) × (time : ℕ) × (rest : List ℕ) × (raw ≡ positive_response t time ++ rest)
      × (response ≡ UdsResponse.ecu_reset (parsed (answer t time)))

  parse-Accepts_byte :
      (sid b : ℕ) (rest : List ℕ) (response : UdsResponse) (c : TryFrom ResetType)
      → resets.try_from b ≡ c
      → parse_ecu_reset_response (sid ∷ b ∷ rest) ≡ ok response
      → Accepts (sid ∷ b ∷ rest) response
  unfolding parse_ecu_reset_response
  parse-Accepts_byte sid b [] response (variant ResetType.enable_rapid_power_shut_down) e h =
      absurd (ground arith)
  parse-Accepts_byte sid b (time ∷ rest) response (variant ResetType.enable_rapid_power_shut_down) e
        h =
      (
        ResetType.enable_rapid_power_shut_down,
        time,
        rest,
        ground (arith, resets.as_u8-try_from b ResetType.enable_rapid_power_shut_down e),
        ground arith,
      )
  parse-Accepts_byte sid b rest response (variant t) e h =
      (t, 0, rest, ground (arith, resets.as_u8-try_from b t e), ground arith)
  parse-Accepts_byte sid b rest response (no_variant n) e h = absurd (ground arith)

  parse-Accepts :
      (raw : List ℕ) (response : UdsResponse)
      → parse_ecu_reset_response raw ≡ ok response
      → Accepts raw response
  parse-Accepts [] response h = unfold parse_ecu_reset_response in absurd (ground arith)
  parse-Accepts (sid ∷ []) response h = unfold parse_ecu_reset_response in absurd (ground arith)
  parse-Accepts (sid ∷ b ∷ rest) response h =
      parse-Accepts_byte sid b rest response (resets.try_from b) refl h

  -- The client accepts exactly the messages that begin with a positive response, and returns what
  -- that holds.
  pub parse_ecu_reset_response-iff-Accepts :
      (raw : List ℕ) (response : UdsResponse)
      → (parse_ecu_reset_response raw ≡ ok response) ↔ Accepts raw response
  parse_ecu_reset_response-iff-Accepts raw response = (
    parse-Accepts raw response,
    λ (t, time, rest, e, e'). rw (e, e') (parse-positive_response t time rest),
  )
