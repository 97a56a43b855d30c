-- ===== src/Client/Ends.antt =====
-- How `send_and_receive` ends, whatever the ECU does.
use uds_rs.Base.{
  ℕ, zero, suc, ◌<◌, ◌≡◌, ◌≢◌, refl, Option, none, some, List, [], ◌∷◌, Result, ok, err, arith,
  Bool-cases, inl, inr, ◌!=◌, ◌==◌,
}
use uds_rs.NumEnum.{TryFromPrimitive}
use uds_rs.Definitions.{negative_response_code_as_u8}
use uds_rs.Communication.{
  UdsCommunicationError, Awaited, ready, send, receive, map_ready, IsoTpSocket, SocketError,
  question_mark,
}
use uds_rs.Response.{UdsError, NrcData}
use uds_rs.Client.{
  Call, done, panicked, never, exhausted, Tokio, UdsClient, Received, Arm, busy, pending, other,
  arm, await_socket, on_delayed, rounds, decrement_i32, parse_for_error, transmit, on_nrc,
  on_response, retry_loop, send_and_receive,
}

-- A refusal with a known code, if the result is one, is of the service `sid`.
abbrev pub IsOwn : {A : Type 0} → ℕ → Result A UdsError → Type 0
IsOwn sid (err (UdsError.nrc d)) = d.rejected_sid ≡ sid
IsOwn sid (err e) = Unit
IsOwn sid (ok a) = Unit

module _ ⦃nrcs : TryFromPrimitive negative_response_code_as_u8⦄ where
  -- A property of calls that holds where the client returns and is kept by a transmission holds of
  -- every exchange: the loop runs fewer rounds than it has fuel.
  module _ {W : Type 0} (tokio : Tokio W) (self : UdsClient W) (sid : ℕ) (args : List ℕ)
      (P : Call W (List ℕ) → Type 0)
      (P-done : (r : Result (List ℕ) UdsError) (v : W) → IsOwn sid r → P (done r v))
      (P-transmit : (k : List ℕ → W → Call W (List ℕ)) (t : W)
        → ((raw : List ℕ) (u : W) → P (k raw u))
        → P (transmit tokio self (sid ∷ args) k t)) where
    on_delayed-P :
        (d : NrcData) (p : Option Received × W) → d.rejected_sid ≡ sid → P (on_delayed d p)
    on_delayed-P d (some (ok raw), v) own = P-done (ok raw) v tt
    on_delayed-P d (some (err e), v) own = P-done (err _) v tt
    on_delayed-P d (none, v) own = P-done (err (UdsError.nrc d)) v own

    module _ (again : ℕ → List ℕ → W → Call W (List ℕ)) (counter : ℕ)
        (ih : (raw : List ℕ) (u : W)
          → decrement_i32 counter ≢ 0
          → P (again (decrement_i32 counter) raw u)) where
      on_nrc-P :
          (d : NrcData) (u : W) (a : Arm)
          → d.rejected_sid ≡ sid
          → P (on_nrc tokio self again (sid ∷ args) counter d u a)
      unfolding on_nrc
      on_nrc-P d u busy own = elim (Bool-cases (decrement_i32 counter == 0)) [
        | inl over ↦ rw over (P-done (err (UdsError.nrc d)) u own)
        | inr more ↦
            rw more
              (P-transmit (again (decrement_i32 counter)) u (λ raw t. ih raw t (ground arith)))
      ]
      on_nrc-P d u pending own = on_delayed-P d _ own
      on_nrc-P d u other own = P-done (err (UdsError.nrc d)) u own

      on_response-P :
          (last : List ℕ) (u : W) (r : Result (Unit {0}) UdsError)
          → P (on_response tokio self again sid args counter last u r)
      unfolding on_response
      on_response-P last u (ok _) = P-done (ok last) u tt
      on_response-P last u (err (UdsError.nrc d)) = elim (Bool-cases (d.rejected_sid != sid)) [
        | inl foreign ↦ rw foreign (P-done (err _) u tt)
        | inr own ↦ rw own (on_nrc-P d u (arm d.nrc) (ground arith))
      ]
      on_response-P last u (err e) = P-done (err _) u tt

    retry_loop-P :
        (fuel counter : ℕ) (last : List ℕ) (u : W)
        → decrement_i32 counter < fuel
        → P (retry_loop tokio self fuel sid args counter last u)
    unfolding retry_loop
    retry_loop-P zero counter last u enough = absurd (omega arith)
    retry_loop-P (suc fuel) counter last u enough =
        on_response-P (retry_loop tokio self fuel sid args) counter
          (λ raw t more. retry_loop-P fuel (decrement_i32 counter) raw t (omega arith)) last u
          (parse_for_error last)

    pub send_and_receive-P : (w : W) → P (send_and_receive tokio self (sid ∷ args) w)
    unfolding send_and_receive
    send_and_receive-P w =
        P-transmit (retry_loop tokio self rounds sid args 0) w
          (λ raw u. retry_loop-P rounds 0 raw u (omega arith))

-- The call returned, or waits for ever; it did not panic and its loop came to an end.
abbrev pub Ends : {W A : Type 0} → Call W A → Type 0
Ends (done r v) = Unit
Ends (panicked v) = ⊥
Ends never = Unit
Ends exhausted = ⊥

abbrev pub Returns : {W A : Type 0} → Call W A → Type 0
Returns (done r v) = Unit
Returns (panicked v) = ⊥
Returns never = ⊥
Returns exhausted = ⊥

abbrev pub Owns : {W A : Type 0} → ℕ → Call W A → Type 0
Owns sid (done r v) = IsOwn sid r
Owns sid c = Unit

-- Every await on the socket completes.
pub record IsLive {W : Type 0} (s : IsoTpSocket W) : Type 0 where
  pub writes : (payload : List ℕ) (w : W) → s.write_packet payload w ≢ Awaited.never
  pub reads : (w : W) → s.read_packet w ≢ Awaited.never

module _ {W A B : Type 0} (k : A → W → Call W B) where
  pub await_socket-Ends :
      (a : Awaited (Result A UdsCommunicationError) W)
      → ((x : A) (u : W) → Ends (k x u))
      → Ends (await_socket a k)
  await_socket-Ends (ready (ok x) u) h = h x u
  await_socket-Ends (ready (err e) u) h = tt
  await_socket-Ends Awaited.never h = tt

  await_socket-Owns :
      (sid : ℕ) (a : Awaited (Result A UdsCommunicationError) W)
      → ((x : A) (u : W) → Owns sid (k x u))
      → Owns sid (await_socket a k)
  await_socket-Owns sid (ready (ok x) u) h = h x u
  await_socket-Owns sid (ready (err e) u) h = tt
  await_socket-Owns sid Awaited.never h = tt

  await_socket-Returns :
      (a : Awaited (Result A SocketError) W)
      → a ≢ Awaited.never
      → ((x : A) (u : W) → Returns (k x u))
      → Returns (await_socket (map_ready question_mark a) k)
  await_socket-Returns (ready (ok x) u) live h = h x u
  await_socket-Returns (ready (err e) u) live h = tt
  await_socket-Returns Awaited.never live h = live refl

module _ ⦃nrcs : TryFromPrimitive negative_response_code_as_u8⦄ where
  module _ {W : Type 0} (tokio : Tokio W) (self : UdsClient W) where
    -- Whatever the ECU sends, `send_and_receive` does not panic, and its loop ends unless an await
    -- never completes.
    pub send_and_receive-Ends :
        (request : List ℕ) (w : W) → Ends (send_and_receive tokio self request w)
    send_and_receive-Ends [] w = unfold send_and_receive in tt
    send_and_receive-Ends (sid ∷ args) w =
        send_and_receive-P tokio self sid args Ends (λ r v own. tt)
          (λ k t h.
            unfold transmit in
            await_socket-Ends _ (send self.socket (sid ∷ args) t)
              (λ _ u. await_socket-Ends k (receive self.socket u) h))
          w

    -- If every await on the socket completes, `send_and_receive` returns, whatever the ECU sends.
    pub send_and_receive-Returns :
        IsLive self.socket.isotp_socket
        → (request : List ℕ) (w : W) → Returns (send_and_receive tokio self request w)
    send_and_receive-Returns live [] w = unfold send_and_receive in tt
    send_and_receive-Returns live (sid ∷ args) w =
        send_and_receive-P tokio self sid args Returns (λ r v own. tt)
          (λ k t h.
            unfold transmit send receive in
            await_socket-Returns _ (self.socket.isotp_socket.write_packet (sid ∷ args) t)
              (live.writes (sid ∷ args) t)
              (λ _ u.
                await_socket-Returns k (self.socket.isotp_socket.read_packet u) (live.reads u) h))
          w

    -- An error NRC, a refusal with a known code, that is handed to the caller names the service that was
    -- called. Nothing is said of UnknownNRC.
    pub send_and_receive-Owns :
        (sid : ℕ) (args : List ℕ) (w : W) → Owns sid (send_and_receive tokio self (sid ∷ args) w)
    send_and_receive-Owns sid args w =
        send_and_receive-P tokio self sid args (Owns sid) (λ r v own. own)
          (λ k t h.
            unfold transmit in
            await_socket-Owns _ sid (send self.socket (sid ∷ args) t)
              (λ _ u. await_socket-Owns k sid (receive self.socket u) h))
          w
