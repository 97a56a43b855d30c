-- ===== src/Client/Retry.antt =====
-- What `send_and_receive` returns, by the exchange with the ECU that it is part of.
use uds_rs.Base.{ℕ, suc, ◌-◌, ◌%◌, ◌<◌, ◌≡◌, ◌≢◌, ◌∙◌, List, ◌∷◌, ok, err, arith}
use uds_rs.NumEnum.{TryFromPrimitive}
use uds_rs.Definitions.{NegativeResponseCode, negative_response_code_as_u8}
use uds_rs.Communication.{receive}
use uds_rs.Response.{UdsError}
use uds_rs.Client.{
  done, Tokio, UdsClient, other, arm, on_delayed, rounds, parse_for_error, on_response, retry_loop,
  send_and_receive, decrement_i32, transmit,
}
use uds_rs.Client.Exchange.{rejection, Rejects, Exchange, send_and_receive-retry_loop}

-- An error of `parse_for_error` that is no refusal with a known code.
abbrev pub IsUnreadable : UdsError → Type 0
IsUnreadable (UdsError.nrc d) = ⊥
IsUnreadable e = Unit

module _ ⦃nrcs : TryFromPrimitive negative_response_code_as_u8⦄ where
  module _ {W : Type 0} (tokio : Tokio W) (self : UdsClient W) (sid : ℕ) (args : List ℕ) (w : W)
      {n : ℕ} {raw : List ℕ} {v : W} (exchange : Exchange tokio self sid args w n raw v)
      (below : n < rounds) where
    last_round :
        send_and_receive tokio self (sid ∷ args) w
        ≡ on_response tokio self
            (retry_loop tokio self (rounds - suc n) sid args)
            sid
            args
            (suc (rounds - suc n) % rounds)
            raw
            v
            (parse_for_error raw)
    unfolding retry_loop
    last_round =
        send_and_receive-retry_loop tokio self sid args w exchange (rounds - suc n) (omega arith)

    -- After fewer than 2 ^ 32 busy responses, a positive response is returned as it is.
    pub send_and_receive_answered :
        parse_for_error raw ≡ ok tt → send_and_receive tokio self (sid ∷ args) w ≡ done (ok raw) v
    unfolding on_response
    send_and_receive_answered positive = last_round ∙ rw positive

    -- After ResponsePending, whatever is received within 2500 ms is the result, and the refusal is
    -- where nothing is.
    pub send_and_receive_pending :
        Rejects sid NegativeResponseCode.request_correctly_received_response_pending raw
        → send_and_receive tokio self (sid ∷ args) w
          ≡ on_delayed
              (record {
                rejected_sid = sid;
                nrc = NegativeResponseCode.request_correctly_received_response_pending;
              })
              (tokio.timeout 2500 (receive self.socket) v)
    unfolding on_response
    send_and_receive_pending rejected = last_round ∙ rw rejected (ground arith)

    -- After fewer than 2 ^ 32 busy responses, a refusal of the request by any code but
    -- BusyRepeatRequest and ResponsePending is the error that the caller gets, at once.
    pub send_and_receive_refused :
        (code : NegativeResponseCode)
        → arm code ≡ other
        → Rejects sid code raw
        → send_and_receive tokio self (sid ∷ args) w ≡ done (err (rejection sid code)) v
    unfolding on_response
    send_and_receive_refused code h rejected = last_round ∙ rw rejected (ground arith)

    -- After fewer than 2 ^ 32 busy responses, a refusal of another service is a SID mismatch, whatever
    -- its code is.
    pub send_and_receive_foreign :
        (rejected_sid : ℕ) (code : NegativeResponseCode)
        → rejected_sid ≢ sid
        → Rejects rejected_sid code raw
        → send_and_receive tokio self (sid ∷ args) w
          ≡ done (err (UdsError.sid_mismatch sid rejected_sid raw)) v
    unfolding on_response
    send_and_receive_foreign rejected_sid code ne rejected = last_round ∙ rw rejected (ground arith)

    -- The client gives up on a busy ECU with the response that follows 2 ^ 32 - 1 busy ones, if that is
    -- busy too: the request has then been sent 2 ^ 32 times.
    pub send_and_receive_gives_up :
        suc n ≡ rounds
        → Rejects sid NegativeResponseCode.busy_repeat_request raw
        → send_and_receive tokio self (sid ∷ args) w
          ≡ done (err (rejection sid NegativeResponseCode.busy_repeat_request)) v
    unfolding on_response
    send_and_receive_gives_up last rejected = last_round ∙ rw rejected (ground arith)

    -- After a busy response that is not the last one allowed, the request is sent again.
    pub send_and_receive_again :
        suc n < rounds
        → Rejects sid NegativeResponseCode.busy_repeat_request raw
        → send_and_receive tokio self (sid ∷ args) w
          ≡ transmit tokio self
              (sid ∷ args)
              (retry_loop tokio self
                (rounds - suc n)
                sid
                args
                (decrement_i32 (suc (rounds - suc n) % rounds)))
              v
    unfolding on_response
    send_and_receive_again more rejected = last_round ∙ rw rejected (ground arith)

    -- After fewer than 2 ^ 32 busy responses, an error of `parse_for_error` that is no refusal with a
    -- known code is the error that the caller gets.
    pub send_and_receive_unreadable :
        (e : UdsError)
        → IsUnreadable e
        → parse_for_error raw ≡ err e
        → send_and_receive tokio self (sid ∷ args) w ≡ done (err e) v
    unfolding on_response
    send_and_receive_unreadable (UdsError.nrc d) unreadable failed = absurd unreadable
    send_and_receive_unreadable e unreadable failed = last_round ∙ rw failed
