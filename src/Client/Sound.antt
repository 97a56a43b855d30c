-- ===== src/Client/Sound.antt =====
-- The responses that `send_and_receive` returns, by the exchange with the ECU.
use uds_rs.Base.{ℕ, ◌<◌, ◌≡◌, ◌↔◌, some, List, ◌∷◌, ok}
use uds_rs.NumEnum.{TryFromPrimitive}
use uds_rs.Definitions.{NegativeResponseCode, negative_response_code_as_u8}
use uds_rs.Communication.{receive}
use uds_rs.Client.{done, Tokio, UdsClient, rounds, parse_for_error, send_and_receive}
use uds_rs.Client.Exchange.{Rejects, Exchange}
use uds_rs.Client.Conclusion.{Concludes, positive, in_time}
use uds_rs.Client.Conclusion.Exact.{send_and_receive-iff-Concludes}

module _ ⦃nrcs : TryFromPrimitive negative_response_code_as_u8⦄ where
  module _ {W : Type 0} (tokio : Tokio W) (self : UdsClient W) (sid : ℕ) (args : List ℕ) where
    -- A request is served by the last answer of an exchange with fewer than 2 ^ 32 busy responses,
    -- if that is no refusal, or by what comes within 2500 ms after an answer ResponsePending.
    pub data Served (w : W) (raw : List ℕ) (v : W) : Type 0 where
      answered :
          {n : ℕ}
          → n < rounds
          → Exchange tokio self sid args w n raw v
          → parse_for_error raw ≡ ok tt
          → Served w raw v
      delayed :
          {n : ℕ} {last : List ℕ} {u : W}
          → n < rounds
          → Exchange tokio self sid args w n last u
          → Rejects sid NegativeResponseCode.request_correctly_received_response_pending last
          → tokio.timeout 2500 (receive self.socket) u ≡ (some (ok raw), v)
          → Served w raw v

    Concludes-Served :
        {w : W} {raw : List ℕ} {v : W} → Concludes tokio self sid args w (ok raw) v → Served w raw v
    Concludes-Served (positive below exchange e) = answered below exchange e
    Concludes-Served (in_time below exchange rejected timely) =
        delayed below exchange rejected timely

    Served-Concludes :
        {w : W} {raw : List ℕ} {v : W} → Served w raw v → Concludes tokio self sid args w (ok raw) v
    Served-Concludes (answered below exchange e) = positive below exchange e
    Served-Concludes (delayed below exchange rejected timely) =
        in_time below exchange rejected timely

    -- For a request that is not empty, `send_and_receive` returns a response exactly when the
    -- request is served with it: by an answer that is no refusal, after fewer than 2 ^ 32 busy
    -- responses, or by what comes within 2500 ms after a ResponsePending.
    pub send_and_receive-iff-Served :
        (w : W) (raw : List ℕ) (v : W)
        → (send_and_receive tokio self (sid ∷ args) w ≡ done (ok raw) v) ↔ Served w raw v
    send_and_receive-iff-Served w raw v =
        let exact = send_and_receive-iff-Concludes tokio self sid args w (ok raw) v in
        (λ h. Concludes-Served (exact.0 h), λ served. exact.1 (Served-Concludes served))
