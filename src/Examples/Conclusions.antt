-- ===== src/Examples/Conclusions.antt =====
-- How exchanges end, what they keep and that they come to an answer, at concrete ECUs.
use uds_rs.Base.{
  ℕ, zero, suc, ◌<◌, ◌≡◌, ◌⊎◌, inl, inr, refl, List, [], ◌∷◌, ◌++◌, All, All-append, Option, ok,
  err, arith, Result,
}
use mathlib.Core.Path.{subst}
use uds_rs.Definitions.{NegativeResponseCode}
use uds_rs.Communication.{send, receive, ready, UdsCommunicationError}
use uds_rs.Client.{done, UdsClient, Received, parse_for_error, send_and_receive}
use uds_rs.Client.Exchange.{rejection, Rejects}
use uds_rs.Client.Conclusion.{Concludes}
use uds_rs.Client.Conclusion.Exact.{send_and_receive-iff-Concludes}
use uds_rs.Client.Keeps.{Keeps}
use uds_rs.Client.Progress.{Yields, send_and_receive_progress}
use uds_rs.Examples.Tables.{negative_response_codes_derive}
use uds_rs.Examples.Ecu.{Bus, bus, client, patient}
use uds_rs.Examples.Servers.{impatient}
use uds_rs.Examples.Exchanges.{busy_answer, pending_answer, run_silent}

-- An ECU that announces an answer and stays silent.
send_and_receive-iff-Concludes_example :
    Concludes patient client 0x11
      (0x01 ∷ [])
      (bus (pending_answer ∷ []))
      (err (rejection 0x11 NegativeResponseCode.request_correctly_received_response_pending))
      (record { answers = []; sent = (0x11 ∷ 0x01 ∷ []) ∷ [] })
send_and_receive-iff-Concludes_example =
    (send_and_receive-iff-Concludes patient client 0x11 (0x01 ∷ []) (bus (pending_answer ∷ [])) _
        _).0
      run_silent

-- Every message that was sent has the property.
abbrev pub AllSent : (List ℕ → Type 0) → Bus → Type 0
AllSent P w = All P w.sent

-- Receiving sends nothing, with a time limit and without.
receive-sent :
    (answers sent : List (List ℕ)) (v : Bus) (r : Received)
    → receive client.socket (record { answers = answers; sent = sent }) ≡ ready r v
    → sent ≡ v.sent
unfolding receive
receive-sent [] sent v r h = absurd (ground arith)
receive-sent (a ∷ answers) sent v r h = ground arith

timeout-sent :
    (answers sent : List (List ℕ)) (v : Bus) (r : Option Received)
    → patient.timeout 2500 (receive client.socket) (record { answers = answers; sent = sent })
      ≡ (r, v)
    → sent ≡ v.sent
unfolding receive
timeout-sent [] sent v r h = λ i. (h i).1.sent
timeout-sent (a ∷ answers) sent v r h = λ i. (h i).1.sent

send-sent :
    (request : List ℕ) (w v : Bus) (r : Result (Unit {0}) UdsCommunicationError)
    → send client.socket request w ≡ ready r v
    → w.sent ++ (request ∷ []) ≡ v.sent
unfolding send
send-sent request w v r h = ground arith

pub scripted-Keeps :
    (P : List ℕ → Type 0) (request : List ℕ) → P request → Keeps patient client request (AllSent P)
scripted-Keeps P request own = record {
  sends = λ w v r all h.
      subst (All P) (send-sent request w v r h) (All-append P w.sent (request ∷ []) all (own, tt));
  receives = λ w v r all h. subst (All P) (receive-sent w.answers w.sent v r h) all;
  waits = λ w v r all h. subst (All P) (timeout-sent w.answers w.sent v r h) all;
}

-- An ECU that is busy as many times as the world says.
abbrev countdown_answer : ℕ → List ℕ
countdown_answer zero = 0x51 ∷ 0x01 ∷ []
countdown_answer (suc n) = busy_answer

abbrev countdown_next : ℕ → ℕ
countdown_next zero = zero
countdown_next (suc n) = n

abbrev countdown : UdsClient ℕ
countdown = record {
  socket = record {
    isotp_socket = record {
      write_packet = λ payload w. ready (ok tt) w;
      read_packet = λ w. ready (ok (countdown_answer w)) (countdown_next w);
    };
  };
}

countdown_answered :
    (w : ℕ)
    → (parse_for_error (countdown_answer w) ≡ ok tt)
      ⊎ (Rejects 0x11 NegativeResponseCode.busy_repeat_request (countdown_answer w)
          × (countdown_next w < w))
unfolding parse_for_error
countdown_answered zero = inl refl
countdown_answered (suc n) = inr (refl, omega arith)

countdown-Yields : Yields countdown 0x11 (0x01 ∷ []) (λ w. w)
unfolding send receive
countdown-Yields = record {
  next = λ w. w;
  last = countdown_next;
  answer = countdown_answer;
  sent = λ w. refl;
  received = λ w. refl;
  answered = countdown_answered;
}

send_and_receive_progress_example :
    (raw : List ℕ) × (v : ℕ) × (parse_for_error raw ≡ ok tt)
    × (send_and_receive impatient countdown (0x11 ∷ 0x01 ∷ []) 1000000 ≡ done (ok raw) v)
send_and_receive_progress_example =
    send_and_receive_progress impatient countdown 0x11 (0x01 ∷ []) (λ w. w) countdown-Yields 1000000
      (omega arith)
