-- ===== src/Client/Progress.antt =====
-- When a call is answered in the end.
use uds_rs.Base.{ℕ, zero, suc, ◌+◌, ◌<◌, ◌≤◌, ◌≡◌, ◌⊎◌, inl, inr, List, ◌∷◌, ok, arith}
use uds_rs.NumEnum.{TryFromPrimitive}
use uds_rs.Definitions.{NegativeResponseCode, negative_response_code_as_u8}
use uds_rs.Communication.{send, receive, ready}
use uds_rs.Client.{done, Tokio, UdsClient, rounds, parse_for_error, send_and_receive}
use uds_rs.Client.Exchange.{Rejects, Exchange, first, repeated}
use uds_rs.Client.Retry.{send_and_receive_answered}

module _ ⦃nrcs : TryFromPrimitive negative_response_code_as_u8⦄ where
  -- To the request the socket always delivers an answer: a positive one, or a busy one, and then the
  -- patience that is left, a number given by the world, has shrunk.
  pub record Yields {W : Type 0} (self : UdsClient W) (sid : ℕ) (args : List ℕ) (patience : W → ℕ)
      : Type 0 where
    pub next : W → W
    pub last : W → W
    pub answer : W → List ℕ
    pub sent : (w : W) → send self.socket (sid ∷ args) w ≡ ready (ok tt) (next w)
    pub received : (w : W) → receive self.socket (next w) ≡ ready (ok (answer w)) (last w)
    pub answered :
        (w : W)
        → (parse_for_error (answer w) ≡ ok tt)
          ⊎ (Rejects sid NegativeResponseCode.busy_repeat_request (answer w)
              × (patience (last w) < patience w))

  module _ {W : Type 0} (tokio : Tokio W) (self : UdsClient W) (sid : ℕ) (args : List ℕ)
      (patience : W → ℕ) (yields : Yields self sid args patience) (w : W) where
    Answered : Type 0
    Answered =
        (raw : List ℕ) × (v : W) × (parse_for_error raw ≡ ok tt)
        × (send_and_receive tokio self (sid ∷ args) w ≡ done (ok raw) v)

    climb :
        (left n : ℕ) (t : W)
        → patience t < left
        → left + n ≤ rounds
        → Exchange tokio self sid args w n (yields.answer t) (yields.last t)
        → Answered
    unfolding Answered
    climb zero n t few total exchange = absurd (omega arith)
    climb (suc left) n t few total exchange = elim (yields.answered t) [
      | inl positive ↦ (
        yields.answer t,
        yields.last t,
        positive,
        send_and_receive_answered tokio self sid args w exchange (omega arith) positive,
      )
      | inr (busy, shrunk) ↦
          climb left (suc n) (yields.last t) (omega arith) (omega arith)
            (repeated exchange busy (yields.sent (yields.last t)) (yields.received (yields.last t)))
    ]

    -- If the socket delivers every answer, and the ECU's patience, below 2 ^ 32 at first, shrinks
    -- with each busy answer, the call is in the end answered by a positive response.
    pub send_and_receive_progress :
        patience w < rounds
        → (raw : List ℕ) × (v : W) × (parse_for_error raw ≡ ok tt)
          × (send_and_receive tokio self (sid ∷ args) w ≡ done (ok raw) v)
    unfolding Answered
    send_and_receive_progress few =
        climb rounds 0 w few (omega arith) (first (yields.sent w) (yields.received w))
