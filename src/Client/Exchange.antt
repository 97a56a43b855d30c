-- ===== src/Client/Exchange.antt =====
-- The exchange of one request with the ECU, told without the client's loop: the request is sent, and
-- sent again for each BusyRepeatRequest, until another response comes.
use uds_rs.Base.{ℕ, zero, suc, ◌+◌, ◌%◌, ◌≡◌, ◌≢◌, refl, ap, ◌∙◌, List, ◌∷◌, ok, err, arith}
use uds_rs.NumEnum.{TryFromPrimitive}
use uds_rs.Definitions.{NegativeResponseCode, negative_response_code_as_u8}
use uds_rs.Communication.{send, receive, ready}
use uds_rs.Response.{UdsError}
use uds_rs.Client.{
  Tokio, UdsClient, decrement_i32, rounds, parse_for_error, retry_loop, send_and_receive,
}

abbrev pub rejection : ℕ → NegativeResponseCode → UdsError
rejection sid code = UdsError.nrc (record { rejected_sid = sid; nrc = code })

counted :
    (fuel n : ℕ)
    → suc fuel + suc n ≡ rounds
    → decrement_i32 (suc (suc fuel) % rounds) ≡ suc fuel % rounds
counted fuel n h = omega arith

module _ ⦃nrcs : TryFromPrimitive negative_response_code_as_u8⦄ where
  -- The response is an ECU's refusal of the service `sid` with that code.
  abbrev pub Rejects : ℕ → NegativeResponseCode → List ℕ → Type 0
  Rejects sid code raw_response = parse_for_error raw_response ≡ err (rejection sid code)

  module _ {W : Type 0} (tokio : Tokio W) (self : UdsClient W) (sid : ℕ) (args : List ℕ) where
    -- From `w`, the request is answered by `n` busy responses, and the answer to its last repeat is
    -- the given one, in the given world.
    pub data Exchange (w : W) : ℕ → List ℕ → W → Type 0 where
      first :
          {u v : W} {raw : List ℕ}
          → send self.socket (sid ∷ args) w ≡ ready (ok tt) u
          → receive self.socket u ≡ ready (ok raw) v
          → Exchange w zero raw v
      repeated :
          {n : ℕ} {t u v : W} {again raw : List ℕ}
          → Exchange w n again t
          → Rejects sid NegativeResponseCode.busy_repeat_request again
          → send self.socket (sid ∷ args) t ≡ ready (ok tt) u
          → receive self.socket u ≡ ready (ok raw) v
          → Exchange w (suc n) raw v

    retry_loop_busy :
        (fuel counter : ℕ) (again raw : List ℕ) (t u v : W)
        → Rejects sid NegativeResponseCode.busy_repeat_request again
        → decrement_i32 counter ≢ 0
        → send self.socket (sid ∷ args) t ≡ ready (ok tt) u
        → receive self.socket u ≡ ready (ok raw) v
        → retry_loop tokio self (suc fuel) sid args counter again t
          ≡ retry_loop tokio self fuel sid args (decrement_i32 counter) raw v
    unfolding retry_loop
    retry_loop_busy fuel counter again raw t u v rejected more sent received =
        rw rejected (ground arith)

    -- Where the loop stands after `n` busy responses, below the number of its rounds.
    pub send_and_receive-retry_loop :
        (w : W) {n : ℕ} {raw : List ℕ} {v : W}
        → Exchange w n raw v
        → (fuel : ℕ) → suc fuel + n ≡ rounds
        → send_and_receive tokio self (sid ∷ args) w
          ≡ retry_loop tokio self (suc fuel) sid args (suc fuel % rounds) raw v
    send_and_receive-retry_loop w (first sent received) fuel h =
        let whole : suc fuel ≡ rounds = omega arith in
        rw whole (unfold send_and_receive in rw (sent, received) refl)
    send_and_receive-retry_loop w
          (repeated {n = n} {t = t} {u = u} {v = v} {again = again} {raw = raw} e rejected sent
            received)
          fuel h =
        send_and_receive-retry_loop w e (suc fuel) (omega arith)
        ∙ retry_loop_busy (suc fuel) (suc (suc fuel) % rounds) again raw t u v rejected
            (omega arith) sent received
        ∙ ap (λ c. retry_loop tokio self (suc fuel) sid args c raw v) (counted fuel n h)
