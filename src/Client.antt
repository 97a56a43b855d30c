-- ===== src/Client.antt =====
-- src/uds.rs: `UdsClient` and the exchange of one request with the ECU.
-- A method takes the state of the world and returns how the call ended (`Call`). The crate tokio is
-- a parameter: `timeout` runs a future for so many milliseconds.
mod Outcome
pub mod Exchange
pub mod Retry
pub mod Conclusion
pub mod Sound
pub mod Origin
pub mod Keeps
pub mod Progress
pub mod Ends
pub mod Methods
pub mod Refusals
pub mod RejectedSid
pub mod New
pub use Outcome.*
use uds_rs.Base.{
  ℕ, zero, suc, ◌+◌, ◌-◌, ◌%◌, ◌^◌, ◌≡◌, Option, none, some, List, [], ◌∷◌, ◌==◌, ◌!=◌,
  if◌then◌else◌, Result, ok, err, ◌>>=◌,
}
use uds_rs.NumEnum.{TryFrom, variant, no_variant, TryFromPrimitive}
use uds_rs.Definitions.{negative_response_sid, NegativeResponseCode, negative_response_code_as_u8}
use uds_rs.Communication.{UdsCommunicationError, UdsSocket, send, receive, Awaited, ready}
use uds_rs.Response.{UdsError, NrcData, next_or}

-- What `receive` gives when it completes.
abbrev pub Received : Type 0
Received = Result (List ℕ) UdsCommunicationError

-- `tokio::time::timeout`: `none` is `Err(Elapsed)`. It always completes, and what it returns in time
-- is what the future gives.
pub record Tokio (W : Type 0) : Type 0 where
  pub timeout : ℕ → (W → Awaited Received W) → W → Option Received × W
  pub timeout_output :
      (ms : ℕ) (f : W → Awaited Received W) (w w' : W) (r : Received)
      → timeout ms f w ≡ (some r, w')
      → f w ≡ ready r w'

pub record UdsClient (W : Type 0) : Type 0 where
  pub socket : UdsSocket W

unfoldable pub new_from_socket : {W : Type 0} → UdsSocket W → UdsClient W
new_from_socket socket = record { socket = socket }

-- `NegativeResponseCode::try_from(..).map_err(..)?`, and the error that the code stands for.
abbrev pub nrc_error : ℕ → TryFrom NegativeResponseCode → Result (Unit {0}) UdsError
nrc_error rejected_sid (variant nrc) =
    err (UdsError.nrc (record { rejected_sid = rejected_sid; nrc = nrc }))
nrc_error rejected_sid (no_variant number) = err (UdsError.unknown_nrc rejected_sid number)

-- The arms of the `match nrc.nrc`.
pub data Arm : Type 0 where
  busy pending other : Arm

abbrev pub arm : NegativeResponseCode → Arm
arm NegativeResponseCode.busy_repeat_request = busy
arm NegativeResponseCode.request_correctly_received_response_pending = pending
arm _ = other

-- `retry_counter -= 1` on an i32, as its bit pattern.
abbrev pub decrement_i32 : ℕ → ℕ
decrement_i32 n = (n + 2 ^ 32 - 1) % 2 ^ 32

-- The retry counter of `send_and_receive` takes each of its 2 ^ 32 values at most once.
abbrev pub rounds : ℕ
rounds = 2 ^ 32

-- What the timeout gives: the delayed response, which is returned as it is, or `Elapsed`.
abbrev pub on_delayed : {W : Type 0} → NrcData → Option Received × W → Call W (List ℕ)
on_delayed nrc (some delayed_response, w) =
    await_socket (ready delayed_response w) (λ raw_response w. done (ok raw_response) w)
on_delayed nrc (none, w) = done (err (UdsError.nrc nrc)) w

module _ ⦃nrcs : TryFromPrimitive negative_response_code_as_u8⦄ where
  unfoldable pub parse_for_error : List ℕ → Result (Unit {0}) UdsError
  parse_for_error raw_response = do
    (sid, rest) ← next_or UdsError.response_empty raw_response
    if sid != negative_response_sid then ok tt else (do
      (rejected_sid, rest) ← next_or UdsError.response_empty rest
      (code, _) ← next_or UdsError.response_empty rest
      nrc_error rejected_sid (nrcs.try_from code))

  module _ {W : Type 0} (tokio : Tokio W) (self : UdsClient W) where
    -- `self.socket.send(request).await?; raw_response = self.socket.receive().await?`
    unfoldable pub transmit : List ℕ → (List ℕ → W → Call W (List ℕ)) → W → Call W (List ℕ)
    transmit request k w =
        await_socket (send self.socket request w) λ _ w. await_socket (receive self.socket w) k

    -- The arms of the `match nrc.nrc` for the request `request`; `again` is the next round of the
    -- loop.
    unfoldable pub on_nrc :
        (ℕ → List ℕ → W → Call W (List ℕ)) → List ℕ → ℕ → NrcData → W → Arm → Call W (List ℕ)
    unfolding transmit
    on_nrc again request retry_counter nrc w busy =
        let retry_counter' = decrement_i32 retry_counter in
        if retry_counter' == 0
        then done (err (UdsError.nrc nrc)) w
        else transmit request (again retry_counter') w
    on_nrc again request retry_counter nrc w pending =
        on_delayed nrc (tokio.timeout 2500 (receive self.socket) w)
    on_nrc again request retry_counter nrc w other = done (err (UdsError.nrc nrc)) w

    -- The body of the loop for a request that begins with `sid`, by the result of `parse_for_error`.
    unfoldable pub on_response :
        (ℕ → List ℕ → W → Call W (List ℕ))
        → ℕ
        → List ℕ
        → ℕ
        → List ℕ
        → W
        → Result (Unit {0}) UdsError
        → Call W (List ℕ)
    unfolding on_nrc
    on_response again sid args retry_counter raw_response w (ok _) = done (ok raw_response) w
    on_response again sid args retry_counter raw_response w (err (UdsError.nrc nrc)) =
        if nrc.rejected_sid != sid
        then done (err (UdsError.sid_mismatch sid nrc.rejected_sid raw_response)) w
        else on_nrc again (sid ∷ args) retry_counter nrc w (arm nrc.nrc)
    on_response again sid args retry_counter raw_response w (err e) = done (err e) w

    -- The `while let`, with fuel.
    unfoldable pub retry_loop : ℕ → ℕ → List ℕ → ℕ → List ℕ → W → Call W (List ℕ)
    unfolding on_response
    retry_loop zero sid args retry_counter raw_response w = exhausted
    retry_loop (suc fuel) sid args retry_counter raw_response w =
        on_response (retry_loop fuel sid args) sid args retry_counter raw_response w
          (parse_for_error raw_response)

    unfoldable pub send_and_receive : List ℕ → W → Call W (List ℕ)
    unfolding transmit
    send_and_receive [] w = done (err UdsError.request_empty) w
    send_and_receive (sid ∷ args) w = transmit (sid ∷ args) (retry_loop rounds sid args 0) w
