-- ===== src/Client/Conclusion.antt =====
-- All ends of `send_and_receive`, told without the client's loop.
pub mod Reached
pub mod Exact
use mathlib.Core.Path.{subst, subst₂}
use uds_rs.Base.{
  ℕ, zero, suc, ◌+◌, ◌-◌, ◌%◌, ◌<◌, ◌≤◌, ◌≡◌, ◌≢◌, refl, sym, ap, ◌∙◌, Option, none, some, List, [],
  ◌∷◌, Result, ok, err, arith, Bool-cases, inl, inr, true, false, ◌!=◌, ◌⊎◌, ◌==◌, ◌↔◌,
}
use uds_rs.NumEnum.{TryFromPrimitive}
use uds_rs.Definitions.{NegativeResponseCode, negative_response_code_as_u8}
use uds_rs.Communication.{UdsCommunicationError, Awaited, ready, send, receive}
use uds_rs.Response.{UdsError, NrcData}
use uds_rs.Client.{
  Call, done, exhausted, Tokio, UdsClient, Received, Arm, busy, pending, other, arm, await_socket,
  on_delayed, rounds, decrement_i32, parse_for_error, transmit, on_nrc, on_response, retry_loop,
  send_and_receive,
}
use uds_rs.Client.Retry.{
  IsUnreadable, send_and_receive_answered, send_and_receive_pending, send_and_receive_refused,
  send_and_receive_foreign, send_and_receive_gives_up, send_and_receive_again,
  send_and_receive_unreadable,
}
use uds_rs.Client.Exchange.{rejection, Rejects, Exchange, first, repeated}

module _ ⦃nrcs : TryFromPrimitive negative_response_code_as_u8⦄ where
  module _ {W : Type 0} (tokio : Tokio W) (self : UdsClient W) (sid : ℕ) (args : List ℕ) where
    -- From `w`, the request is to be sent after `n` busy responses, and the world is then the given
    -- one.
    pub data Attempt (w : W) : ℕ → W → Type 0 where
      initial : Attempt w zero w
      again :
          {n : ℕ} {last : List ℕ} {t : W}
          → Exchange tokio self sid args w n last t
          → Rejects sid NegativeResponseCode.busy_repeat_request last
          → Attempt w (suc n) t

    -- The exchange is over, with that result in that world.
    pub data Concludes (w : W) : Result (List ℕ) UdsError → W → Type 0 where
      unsent :
          {n : ℕ} {t v : W} {e : UdsCommunicationError}
          → n < rounds
          → Attempt w n t
          → send self.socket (sid ∷ args) t ≡ ready (err e) v
          → Concludes w (err (UdsError.communication_error e)) v
      unanswered :
          {n : ℕ} {t u v : W} {e : UdsCommunicationError}
          → n < rounds
          → Attempt w n t
          → send self.socket (sid ∷ args) t ≡ ready (ok tt) u
          → receive self.socket u ≡ ready (err e) v
          → Concludes w (err (UdsError.communication_error e)) v
      positive :
          {n : ℕ} {raw : List ℕ} {v : W}
          → n < rounds
          → Exchange tokio self sid args w n raw v
          → parse_for_error raw ≡ ok tt
          → Concludes w (ok raw) v
      unreadable :
          {n : ℕ} {raw : List ℕ} {v : W} {e : UdsError}
          → n < rounds
          → Exchange tokio self sid args w n raw v
          → parse_for_error raw ≡ err e
          → IsUnreadable e
          → Concludes w (err e) v
      foreign :
          {n : ℕ} {raw : List ℕ} {v : W} {rejected_sid : ℕ} {code : NegativeResponseCode}
          → n < rounds
          → Exchange tokio self sid args w n raw v
          → Rejects rejected_sid code raw
          → rejected_sid ≢ sid
          → Concludes w (err (UdsError.sid_mismatch sid rejected_sid raw)) v
      refused :
          {n : ℕ} {raw : List ℕ} {v : W} {code : NegativeResponseCode}
          → n < rounds
          → Exchange tokio self sid args w n raw v
          → Rejects sid code raw
          → arm code ≡ other
          → Concludes w (err (rejection sid code)) v
      gave_up :
          {n : ℕ} {raw : List ℕ} {v : W}
          → suc n ≡ rounds
          → Exchange tokio self sid args w n raw v
          → Rejects sid NegativeResponseCode.busy_repeat_request raw
          → Concludes w (err (rejection sid NegativeResponseCode.busy_repeat_request)) v
      in_time :
          {n : ℕ} {last raw : List ℕ} {u v : W}
          → n < rounds
          → Exchange tokio self sid args w n last u
          → Rejects sid NegativeResponseCode.request_correctly_received_response_pending last
          → tokio.timeout 2500 (receive self.socket) u ≡ (some (ok raw), v)
          → Concludes w (ok raw) v
      lost :
          {n : ℕ} {last : List ℕ} {u v : W} {e : UdsCommunicationError}
          → n < rounds
          → Exchange tokio self sid args w n last u
          → Rejects sid NegativeResponseCode.request_correctly_received_response_pending last
          → tokio.timeout 2500 (receive self.socket) u ≡ (some (err e), v)
          → Concludes w (err (UdsError.communication_error e)) v
      elapsed :
          {n : ℕ} {last : List ℕ} {u v : W}
          → n < rounds
          → Exchange tokio self sid args w n last u
          → Rejects sid NegativeResponseCode.request_correctly_received_response_pending last
          → tokio.timeout 2500 (receive self.socket) u ≡ (none, v)
          → Concludes w
              (err (rejection sid NegativeResponseCode.request_correctly_received_response_pending))
              v
