-- ===== src/Client/Conclusion/Reached.antt =====
-- From the end of `send_and_receive` back to the exchange with the ECU.
use mathlib.Core.Path.{subst, subst₂}
use uds_rs.Base.{
  ℕ, zero, suc, ◌+◌, ◌-◌, ◌%◌, ◌<◌, ◌≡◌, refl, sym, Option, none, some, List, ◌∷◌, Result, ok, err,
  arith, Bool-cases, inl, inr, ◌!=◌, ◌⊎◌, ◌==◌,
}
use uds_rs.NumEnum.{TryFromPrimitive}
use uds_rs.Definitions.{NegativeResponseCode, negative_response_code_as_u8}
use uds_rs.Communication.{UdsCommunicationError, Awaited, ready, send, receive}
use uds_rs.Response.{UdsError}
use uds_rs.Client.{
  Call, done, Tokio, UdsClient, Received, Arm, busy, pending, other, arm, await_socket, on_delayed,
  rounds, decrement_i32, parse_for_error, transmit, on_nrc, on_response, retry_loop,
  send_and_receive,
}
use uds_rs.Client.Conclusion.{
  Attempt, initial, again, Concludes, unsent, unanswered, positive, unreadable, foreign, refused,
  gave_up, in_time, lost, elapsed,
}
use uds_rs.Client.Exchange.{Rejects, Exchange, first, repeated}

await_socket_done :
    {W A B : Type 0} (a : Awaited (Result A UdsCommunicationError) W) (k : A → W → Call W B)
    {r : Result B UdsError} {v : W}
    → await_socket a k ≡ done r v
    → ((e : UdsCommunicationError) × (a ≡ ready (err e) v)
        × (r ≡ err (UdsError.communication_error e)))
      ⊎ ((x : A) × (u : W) × (a ≡ ready (ok x) u) × (k x u ≡ done r v))
await_socket_done (ready (ok x) u) k h = inr (x, u, refl, h)
await_socket_done (ready (err e) u) k h = inl (e, ground arith, ground arith)
await_socket_done Awaited.never k h = cc

arm-eq_busy :
    (code : NegativeResponseCode)
    → arm code ≡ busy
    → code ≡ NegativeResponseCode.busy_repeat_request
arm-eq_busy code h = ground arith

arm-eq_pending :
    (code : NegativeResponseCode)
    → arm code ≡ pending
    → code ≡ NegativeResponseCode.request_correctly_received_response_pending
arm-eq_pending code h = ground arith

pub done-injective :
    {W A : Type 0} {a b : Result A UdsError} {u v : W}
    → ◌≡◌ {A = Call W A} (done a u) (done b v)
    → (a ≡ b) × (u ≡ v)
done-injective h = ground arith

module _ ⦃nrcs : TryFromPrimitive negative_response_code_as_u8⦄ where
  module _ {W : Type 0} (tokio : Tokio W) (self : UdsClient W) (sid : ℕ) (args : List ℕ) where
    Attempt-Exchange :
        {w : W} {n : ℕ} {t u v : W} {raw : List ℕ}
        → Attempt tokio self sid args w n t
        → send self.socket (sid ∷ args) t ≡ ready (ok tt) u
        → receive self.socket u ≡ ready (ok raw) v
        → Exchange tokio self sid args w n raw v
    Attempt-Exchange initial sent received = first sent received
    Attempt-Exchange (again exchange rejected) sent received =
        repeated exchange rejected sent received

    module _ {w : W} {r : Result (List ℕ) UdsError} {v : W} where
      transmit-Concludes :
          (n : ℕ) (t : W) (k : List ℕ → W → Call W (List ℕ))
          → n < rounds
          → Attempt tokio self sid args w n t
          → ((raw : List ℕ) (u : W)
              → Exchange tokio self sid args w n raw u
              → k raw u ≡ done r v
              → Concludes tokio self sid args w r v)
          → transmit tokio self (sid ∷ args) k t ≡ done r v
          → Concludes tokio self sid args w r v
      unfolding transmit
      transmit-Concludes n t k below attempt more h =
          elim (await_socket_done (send self.socket (sid ∷ args) t) _ h) [
            | inl (e, failed, same) ↦
                subst (λ r. Concludes tokio self sid args w r v) (sym same)
                  (unsent below attempt failed)
            | inr (_, u, sent, h') ↦ elim (await_socket_done (receive self.socket u) k h') [
              | inl (e, failed, same) ↦
                  subst (λ r. Concludes tokio self sid args w r v) (sym same)
                    (unanswered below attempt sent failed)
              | inr (raw, u', received, h'') ↦
                  more raw u' (Attempt-Exchange attempt sent received) h''
            ]
          ]

      conclude :
          {r' : Result (List ℕ) UdsError} {v' : W}
          → Concludes tokio self sid args w r' v'
          → ◌≡◌ {A = Call W (List ℕ)} (done r' v') (done r v)
          → Concludes tokio self sid args w r v
      conclude c h =
          let (same, world) = done-injective h in
          subst₂ (Concludes tokio self sid args w) same world c

      module _ (n : ℕ) (last : List ℕ) (u : W) (below : n < rounds)
          (exchange : Exchange tokio self sid args w n last u) where
        on_delayed-Concludes :
            (p : Option Received × W)
            → Rejects sid NegativeResponseCode.request_correctly_received_response_pending last
            → tokio.timeout 2500 (receive self.socket) u ≡ p
            → on_delayed
                (record {
                  rejected_sid = sid;
                  nrc = NegativeResponseCode.request_correctly_received_response_pending;
                })
                p
              ≡ done r v
            → Concludes tokio self sid args w r v
        on_delayed-Concludes (some (ok raw), t) rejected timely h =
            conclude (in_time below exchange rejected timely) h
        on_delayed-Concludes (some (err e), t) rejected timely h =
            conclude (lost below exchange rejected timely) h
        on_delayed-Concludes (none, t) rejected timely h =
            conclude (elapsed below exchange rejected timely) h

        module _ (next : ℕ → List ℕ → W → Call W (List ℕ)) (counter : ℕ)
            (counted : suc n ≡ rounds → decrement_i32 counter ≡ 0)
            (ends : decrement_i32 counter ≡ 0 → suc n ≡ rounds)
            (ih : (l : List ℕ) (t : W)
              → suc n < rounds
              → Exchange tokio self sid args w (suc n) l t
              → next (decrement_i32 counter) l t ≡ done r v
              → Concludes tokio self sid args w r v) where
          on_nrc-Concludes :
              (code : NegativeResponseCode) (a : Arm)
              → arm code ≡ a
              → Rejects sid code last
              → on_nrc tokio self next
                  (sid ∷ args)
                  counter
                  (record { rejected_sid = sid; nrc = code })
                  u
                  a
                ≡ done r v
              → Concludes tokio self sid args w r v
          unfolding on_nrc
          on_nrc-Concludes code busy e rejected h =
              let rejected' = rw (arm-eq_busy code e) at rejected in
              elim (Bool-cases (decrement_i32 counter == 0)) [
                | inl over ↦
                    conclude (gave_up (ends (ground arith)) exchange rejected')
                      (rw (arm-eq_busy code e) at (rw over at h))
                | inr more ↦
                    let below' : suc n < rounds = ground (arith, counted) in
                    transmit-Concludes (suc n) u (next (decrement_i32 counter)) below'
                      (again exchange rejected') (λ raw t x. ih raw t below' x) (rw more at h)
              ]
          on_nrc-Concludes code pending e rejected h =
              on_delayed-Concludes _ (rw (arm-eq_pending code e) at rejected) refl
                (rw (arm-eq_pending code e) at h)
          on_nrc-Concludes code other e rejected h = conclude (refused below exchange rejected e) h

          on_response-Concludes :
              (x : Result (Unit {0}) UdsError)
              → parse_for_error last ≡ x
              → on_response tokio self next sid args counter last u x ≡ done r v
              → Concludes tokio self sid args w r v
          unfolding on_response
          on_response-Concludes (ok _) e h = conclude (positive below exchange e) h
          on_response-Concludes (err (UdsError.nrc d)) e h =
              elim (Bool-cases (d.rejected_sid != sid)) [
                | inl other_sid ↦
                    conclude (foreign below exchange e (ground arith)) (rw other_sid at h)
                | inr own ↦
                    let same : d.rejected_sid ≡ sid = ground arith in
                    on_nrc-Concludes d.nrc (arm d.nrc) refl
                      (subst (λ s. Rejects s d.nrc last) same e)
                      (subst
                        (λ s.
                          on_nrc tokio self next (sid ∷ args) counter
                            (record { rejected_sid = s; nrc = d.nrc }) u (arm d.nrc)
                          ≡ done r v)
                        same (rw own at h))
              ]
          on_response-Concludes (err x) e h = conclude (unreadable below exchange e tt) h

      retry_loop-Concludes :
          (fuel n counter : ℕ) (last : List ℕ) (u : W)
          → suc fuel + n ≡ rounds
          → counter ≡ suc fuel % rounds
          → Exchange tokio self sid args w n last u
          → retry_loop tokio self (suc fuel) sid args counter last u ≡ done r v
          → Concludes tokio self sid args w r v
      unfolding retry_loop
      retry_loop-Concludes zero n counter last u total count exchange h =
          on_response-Concludes n last u (omega arith) exchange
            (retry_loop tokio self zero sid args) counter (λ e. omega arith) (λ e. omega arith)
            (λ l t more x h. absurd (omega arith)) (parse_for_error last) refl h
      retry_loop-Concludes (suc fuel) n counter last u total count exchange h =
          on_response-Concludes n last u (omega arith) exchange
            (retry_loop tokio self (suc fuel) sid args) counter (λ e. omega arith)
            (λ e. omega arith)
            (λ l t more x h.
              retry_loop-Concludes fuel (suc n) (decrement_i32 counter) l t (omega arith)
                (omega arith) x h)
            (parse_for_error last) refl h

    pub send_and_receive-Concludes :
        (w : W) (r : Result (List ℕ) UdsError) (v : W)
        → send_and_receive tokio self (sid ∷ args) w ≡ done r v
        → Concludes tokio self sid args w r v
    unfolding send_and_receive
    send_and_receive-Concludes w r v h =
        transmit-Concludes 0 w (retry_loop tokio self rounds sid args 0) (omega arith) initial
          (λ raw u exchange h'.
            retry_loop-Concludes (rounds - 1) 0 0 raw u (omega arith) (omega arith) exchange h')
          h
