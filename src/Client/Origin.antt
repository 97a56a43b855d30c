-- ===== src/Client/Origin.antt =====
-- Where the bytes come from that `send_and_receive` returns.
use uds_rs.Base.{ℕ, ◌≡◌, List, ◌∷◌, ok}
use uds_rs.NumEnum.{TryFromPrimitive}
use uds_rs.Definitions.{negative_response_code_as_u8}
use uds_rs.Communication.{receive, ready}
use uds_rs.Client.{done, Tokio, UdsClient, send_and_receive}
use uds_rs.Client.Exchange.{Exchange, first, repeated}
use uds_rs.Client.Sound.{Served, answered, delayed, send_and_receive-iff-Served}

module _ ⦃nrcs : TryFromPrimitive negative_response_code_as_u8⦄ {W : Type 0} (tokio : Tokio W)
    (self : UdsClient W) (sid : ℕ) (args : List ℕ) (w : W) where
  Exchange-received :
      {n : ℕ} {raw : List ℕ} {v : W}
      → Exchange tokio self sid args w n raw v
      → (u : W) × (receive self.socket u ≡ ready (ok raw) v)
  Exchange-received (first {u = u} sent received) = (u, received)
  Exchange-received (repeated {u = u} exchange rejected sent received) = (u, received)

  Served-received :
      {raw : List ℕ} {v : W}
      → Served tokio self sid args w raw v
      → (u : W) × (receive self.socket u ≡ ready (ok raw) v)
  Served-received (answered below exchange positive) = Exchange-received exchange
  Served-received {raw} {v} (delayed {u = u} below exchange rejected timely) =
      (u, tokio.timeout_output 2500 (receive self.socket) u v (ok raw) timely)

  -- What `send_and_receive` returns is always the last message that the socket received, unchanged:
  -- from some world, `receive` gives this message and leads to the world of the return.
  pub send_and_receive-received :
      (raw : List ℕ) (v : W)
      → send_and_receive tokio self (sid ∷ args) w ≡ done (ok raw) v
      → (u : W) × (receive self.socket u ≡ ready (ok raw) v)
  send_and_receive-received raw v returned =
      Served-received ((send_and_receive-iff-Served tokio self sid args w raw v).0 returned)
