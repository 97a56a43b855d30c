-- ===== src/Session/Reached.antt =====
-- What holds in every world that a client reaches.
use mathlib.Core.Path.{subst}
use uds_rs.Base.{ℕ, List, ◌≡◌}
use uds_rs.NumEnum.{TryFromPrimitive}
use uds_rs.Definitions.{negative_response_code_as_u8, ServiceIdentifier, service_identifier_as_u8}
use uds_rs.Response.{reset_type_as_u8, sub_function_as_u8, dtc_format_as_u8}
use uds_rs.Client.{done, Tokio, UdsClient, send_and_receive}
use uds_rs.Client.Keeps.{Keeps, send_and_receive-Keeps}
use uds_rs.Services.Requests.{Requests}
use uds_rs.Session.{Reaches, start, called}
use uds_rs.Session.Actions.{Transmits, idle, exchanged, perform-Transmits}

module _ ⦃nrcs : TryFromPrimitive negative_response_code_as_u8⦄ {W : Type 0} (tokio : Tokio W)
    (self : UdsClient W) (I : W → Type 0)
    (keeps : (s : ServiceIdentifier) (request : List ℕ)
      → Requests s request
      → Keeps tokio self request I) where
  Transmits-keeps : {w v : W} → Transmits tokio self w v → I w → I v
  Transmits-keeps idle i = i
  Transmits-keeps {w} {v} (exchanged {r} s request own h) i =
      let (args, whole, bytes) = own in
      send_and_receive-Keeps tokio self (service_identifier_as_u8 s) args I
        (subst (λ l. Keeps tokio self l I) whole (keeps s request own)) w v r i
        (subst (λ l. send_and_receive tokio self l w ≡ done r v) whole h)

  -- Whatever is kept by sending a request of bytes that begins with the SID of a service, by receiving,
  -- and by receiving for at most 2500 ms, holds in every world that is reached by calls of the methods
  -- with valid arguments, in any order and whatever they return.
  pub Reaches-Keeps :
      ⦃resets : TryFromPrimitive reset_type_as_u8⦄
      ⦃sub_functions : TryFromPrimitive sub_function_as_u8⦄
      ⦃formats : TryFromPrimitive dtc_format_as_u8⦄
      → (w v : W) → I w
      → Reaches tokio self w v
      → I v
  Reaches-Keeps w v i start = i
  Reaches-Keeps w v i (called {v = t} reached a valid h) =
      Transmits-keeps (perform-Transmits tokio self t a valid h) (Reaches-Keeps w t i reached)
