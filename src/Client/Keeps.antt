-- ===== src/Client/Keeps.antt =====
-- What an exchange keeps of the world.
use uds_rs.Base.{ℕ, ◌≡◌, List, ◌∷◌, Result, Option}
use uds_rs.NumEnum.{TryFromPrimitive}
use uds_rs.Definitions.{negative_response_code_as_u8}
use uds_rs.Communication.{UdsCommunicationError, send, receive, ready}
use uds_rs.Response.{UdsError}
use uds_rs.Client.{done, Tokio, UdsClient, Received, send_and_receive}
use uds_rs.Client.Exchange.{Exchange, first, repeated}
use uds_rs.Client.Conclusion.{
  Attempt, initial, again, Concludes, unsent, unanswered, positive, unreadable, foreign, refused,
  gave_up, in_time, lost, elapsed,
}
use uds_rs.Client.Conclusion.Exact.{send_and_receive-iff-Concludes}

-- `I` is kept by sending the request, by receiving, and by receiving with a time limit, whatever the
-- result is. Nothing is said of sending anything else.
pub record Keeps {W : Type 0} (tokio : Tokio W) (self : UdsClient W) (request : List ℕ)
    (I : W → Type 0) : Type 0 where
  pub sends :
      (w v : W) (r : Result (Unit {0}) UdsCommunicationError)
      → I w
      → send self.socket request w ≡ ready r v
      → I v
  pub receives : (w v : W) (r : Received) → I w → receive self.socket w ≡ ready r v → I v
  pub waits :
      (w v : W) (r : Option Received)
      → I w
      → tokio.timeout 2500 (receive self.socket) w ≡ (r, v)
      → I v

module _ ⦃nrcs : TryFromPrimitive negative_response_code_as_u8⦄ {W : Type 0} (tokio : Tokio W)
    (self : UdsClient W) (sid : ℕ) (args : List ℕ) (I : W → Type 0)
    (keeps : Keeps tokio self (sid ∷ args) I) where
  Exchange-keeps :
      {w : W} {n : ℕ} {raw : List ℕ} {v : W} → Exchange tokio self sid args w n raw v → I w → I v
  Exchange-keeps {w} (first {u} {v} sent received) i =
      keeps.receives u v _ (keeps.sends w u _ i sent) received
  Exchange-keeps (repeated {t} {u} {v} exchange rejected sent received) i =
      keeps.receives u v _ (keeps.sends t u _ (Exchange-keeps exchange i) sent) received

  Attempt-keeps : {w : W} {n : ℕ} {t : W} → Attempt tokio self sid args w n t → I w → I t
  Attempt-keeps initial i = i
  Attempt-keeps (again exchange rejected) i = Exchange-keeps exchange i

  Concludes-keeps :
      {w : W} {r : Result (List ℕ) UdsError} {v : W}
      → Concludes tokio self sid args w r v
      → I w
      → I v
  Concludes-keeps (unsent {t} {v} below attempt failed) i =
      keeps.sends t v _ (Attempt-keeps attempt i) failed
  Concludes-keeps (unanswered {t} {u} {v} below attempt sent failed) i =
      keeps.receives u v _ (keeps.sends t u _ (Attempt-keeps attempt i) sent) failed
  Concludes-keeps (positive below exchange e) i = Exchange-keeps exchange i
  Concludes-keeps (unreadable below exchange e bad) i = Exchange-keeps exchange i
  Concludes-keeps (foreign below exchange rejected ne) i = Exchange-keeps exchange i
  Concludes-keeps (refused below exchange rejected e) i = Exchange-keeps exchange i
  Concludes-keeps (gave_up last exchange rejected) i = Exchange-keeps exchange i
  Concludes-keeps (in_time {u} {v} below exchange rejected timely) i =
      keeps.waits u v _ (Exchange-keeps exchange i) timely
  Concludes-keeps (lost {u} {v} below exchange rejected timely) i =
      keeps.waits u v _ (Exchange-keeps exchange i) timely
  Concludes-keeps (elapsed {u} {v} below exchange rejected timely) i =
      keeps.waits u v _ (Exchange-keeps exchange i) timely

  -- Whatever is kept by sending this request, by receiving, and by receiving for at most 2500 ms, is
  -- kept by `send_and_receive`: it does nothing else to the world, and sends no other message.
  pub send_and_receive-Keeps :
      (w v : W) (r : Result (List ℕ) UdsError)
      → I w
      → send_and_receive tokio self (sid ∷ args) w ≡ done r v
      → I v
  send_and_receive-Keeps w v r i h =
      Concludes-keeps ((send_and_receive-iff-Concludes tokio self sid args w r v).0 h) i
