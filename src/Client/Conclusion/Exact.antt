-- ===== src/Client/Conclusion/Exact.antt =====
-- `send_and_receive` and the description of its ends, compared.
use uds_rs.Base.{ℕ, ◌≡◌, ◌∙◌, List, ◌∷◌, Result, arith, ◌↔◌}
use uds_rs.NumEnum.{TryFromPrimitive}
use uds_rs.Definitions.{negative_response_code_as_u8}
use uds_rs.Response.{UdsError}
use uds_rs.Client.{done, Tokio, UdsClient, transmit, send_and_receive}
use uds_rs.Client.Retry.{
  send_and_receive_answered, send_and_receive_pending, send_and_receive_refused,
  send_and_receive_foreign, send_and_receive_gives_up, send_and_receive_again,
  send_and_receive_unreadable,
}
use uds_rs.Client.Conclusion.{
  initial, again, Concludes, unsent, unanswered, positive, unreadable, foreign, refused, gave_up,
  in_time, lost, elapsed,
}
use uds_rs.Client.Conclusion.Reached.{send_and_receive-Concludes}

module _ ⦃nrcs : TryFromPrimitive negative_response_code_as_u8⦄ where
  module _ {W : Type 0} (tokio : Tokio W) (self : UdsClient W) (sid : ℕ) (args : List ℕ) where
    Concludes-send_and_receive :
        {w : W} {r : Result (List ℕ) UdsError} {v : W}
        → Concludes tokio self sid args w r v
        → send_and_receive tokio self (sid ∷ args) w ≡ done r v
    unfolding transmit
    Concludes-send_and_receive (unsent below initial failed) = unfold send_and_receive in rw failed
    Concludes-send_and_receive {w} (unsent below (again exchange rejected) failed) =
        send_and_receive_again tokio self sid args w exchange (omega arith) below rejected
        ∙ rw failed
    Concludes-send_and_receive (unanswered below initial sent failed) =
        unfold send_and_receive in rw (sent, failed)
    Concludes-send_and_receive {w} (unanswered below (again exchange rejected) sent failed) =
        send_and_receive_again tokio self sid args w exchange (omega arith) below rejected
        ∙ rw (sent, failed)
    Concludes-send_and_receive {w} (positive below exchange e) =
        send_and_receive_answered tokio self sid args w exchange below e
    Concludes-send_and_receive {w} (unreadable below exchange e bad) =
        send_and_receive_unreadable tokio self sid args w exchange below _ bad e
    Concludes-send_and_receive {w} (foreign below exchange rejected ne) =
        send_and_receive_foreign tokio self sid args w exchange below _ _ ne rejected
    Concludes-send_and_receive {w} (refused below exchange rejected e) =
        send_and_receive_refused tokio self sid args w exchange below _ e rejected
    Concludes-send_and_receive {w} (gave_up last exchange rejected) =
        send_and_receive_gives_up tokio self sid args w exchange (omega arith) last rejected
    Concludes-send_and_receive {w} (in_time below exchange rejected timely) =
        send_and_receive_pending tokio self sid args w exchange below rejected ∙ rw timely
    Concludes-send_and_receive {w} (lost below exchange rejected timely) =
        send_and_receive_pending tokio self sid args w exchange below rejected ∙ rw timely
    Concludes-send_and_receive {w} (elapsed below exchange rejected timely) =
        send_and_receive_pending tokio self sid args w exchange below rejected ∙ rw timely

    -- For a request that is not empty, `send_and_receive` returns exactly the results, and leads to
    -- exactly the worlds, that the description of the exchange allows: a positive answer; what comes
    -- within 2500 ms after ResponsePending, a failure to receive it, or the refusal where nothing
    -- comes; the refusal of this request, at once or, if the ECU is busy, after 2 ^ 32 answers; a SID
    -- mismatch for the refusal of another; an error for an answer that cannot be read, and the
    -- socket's error where sending or receiving fails at any repeat.
    pub send_and_receive-iff-Concludes :
        (w : W) (r : Result (List ℕ) UdsError) (v : W)
        → (send_and_receive tokio self (sid ∷ args) w ≡ done r v)
          ↔ Concludes tokio self sid args w r v
    send_and_receive-iff-Concludes w r v =
        (send_and_receive-Concludes tokio self sid args w r v, Concludes-send_and_receive)
