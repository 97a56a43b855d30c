-- ===== src/Services/Endings.antt =====
-- What becomes of a refusal that follows ResponsePending, at the level of a method.
use uds_rs.Base.{ℕ, List, [], ◌∷◌, ◌≡◌, ◌<◌, some, ok, err}
use uds_rs.NumEnum.{TryFromPrimitive}
use uds_rs.Definitions.{NegativeResponseCode, negative_response_code_as_u8}
use uds_rs.Communication.{receive}
use uds_rs.Response.{UdsError, ResetType, reset_type_as_u8}
use uds_rs.Client.{done, Tokio, UdsClient, rounds}
use uds_rs.Client.Exchange.{Exchange, Rejects}
use uds_rs.Client.Sound.{delayed, send_and_receive-iff-Served}
use uds_rs.EcuReset.{ecu_reset, parse_ecu_reset_response}

module _ ⦃nrcs : TryFromPrimitive negative_response_code_as_u8⦄ {W : Type 0} (tokio : Tokio W)
    (self : UdsClient W) (w : W) where
  -- A refusal that comes in time after fewer than 2 ^ 32 busy responses and a ResponsePending is not
  -- recognised as one: the call of EcuReset reports a wrong SID and not the code of the refusal.
  pub ecu_reset-delayed_refusal :
      ⦃resets : TryFromPrimitive reset_type_as_u8⦄
      → (t : ResetType) (code : NegativeResponseCode) {n : ℕ} {last : List ℕ} {u : W} (v : W)
      → n < rounds
      → Exchange tokio self 0x11 (reset_type_as_u8 t ∷ []) w n last u
      → Rejects 0x11 NegativeResponseCode.request_correctly_received_response_pending last
      → tokio.timeout 2500 (receive self.socket) u
        ≡ (some (ok (0x7F ∷ 0x11 ∷ negative_response_code_as_u8 code ∷ [])), v)
      → ecu_reset tokio self t w
        ≡ done
            (err (
              UdsError.sid_mismatch 0x51 0x7F
                (0x7F ∷ 0x11 ∷ negative_response_code_as_u8 code ∷ [])))
            v
  unfolding ecu_reset parse_ecu_reset_response
  ecu_reset-delayed_refusal t code v below exchange rejected timely =
      let refusal : List ℕ = 0x7F ∷ 0x11 ∷ negative_response_code_as_u8 code ∷ [] in
      rw (
        (send_and_receive-iff-Served tokio self 0x11 (reset_type_as_u8 t ∷ []) w refusal v).1
          (delayed below exchange rejected timely))
