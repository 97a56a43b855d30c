-- ===== src/Client/Methods.antt =====
-- The methods that end in a parse function: compose, send and receive, parse.
use uds_rs.Base.{ℕ, List, ◌∷◌, ◌≡◌, ◌↔◌, ◌⊎◌, inl, inr, err-injective, refl, ok, err, Result}
use uds_rs.NumEnum.{TryFromPrimitive}
use uds_rs.Definitions.{negative_response_code_as_u8}
use uds_rs.Response.{UdsResponse, UdsError, EcuResponseResult}
use uds_rs.Client.{
  Call, done, panicked, never, exhausted, Tokio, UdsClient, await_call, send_and_receive,
}
use uds_rs.Client.Conclusion.{Concludes}
use uds_rs.Client.Conclusion.Exact.{send_and_receive-iff-Concludes}
use uds_rs.Client.Conclusion.Reached.{done-injective}
use uds_rs.Client.Sound.{Served, send_and_receive-iff-Served}
use uds_rs.Client.Ends.{Returns, IsLive, send_and_receive-Returns}

pub await_call_done :
    {W A B : Type 0} (c : Call W A) (k : A → W → Call W B) {b : B} {v : W}
    → await_call c k ≡ done (ok b) v
    → (a : A) × (u : W) × (c ≡ done (ok a) u) × (k a u ≡ done (ok b) v)
await_call_done (done (ok a) u) k h = (a, u, refl, h)
await_call_done (done (err e) u) k h = cc
await_call_done (panicked u) k h = cc
await_call_done never k h = cc
await_call_done exhausted k h = cc

pub await_call_failed :
    {W A B : Type 0} (c : Call W A) (k : A → W → Call W B) {e : UdsError} {v : W}
    → await_call c k ≡ done (err e) v
    → (c ≡ done (err e) v) ⊎ ((a : A) × (u : W) × (c ≡ done (ok a) u) × (k a u ≡ done (err e) v))
await_call_failed (done (ok a) u) k h = inr (a, u, refl, h)
await_call_failed (done (err e) u) k h =
    let (same, world) = done-injective h in inl (λ i. done (err (err-injective same i)) (world i))
await_call_failed (panicked u) k h = cc
await_call_failed never k h = cc
await_call_failed exhausted k h = cc

await_call-Returns :
    {W A B : Type 0} (c : Call W A) (k : A → W → Call W B)
    → Returns c
    → ((a : A) (u : W) → Returns (k a u))
    → Returns (await_call c k)
await_call-Returns (done (ok a) u) k h h' = h' a u
await_call-Returns (done (err e) u) k h h' = tt
await_call-Returns (panicked u) k h h' = h
await_call-Returns never k h h' = h
await_call-Returns exhausted k h h' = h

-- A call that returns has a result, and a world after it.
pub Returns-done :
    {W A : Type 0} (c : Call W A) → Returns c → (r : Result A UdsError) × (v : W) × (c ≡ done r v)
Returns-done (done r v) h = (r, v, refl)
Returns-done (panicked v) h = absurd h
Returns-done never h = absurd h
Returns-done exhausted h = absurd h

module _ ⦃nrcs : TryFromPrimitive negative_response_code_as_u8⦄ {W : Type 0} (tokio : Tokio W)
    (self : UdsClient W) where
  abbrev pub run_method : (List ℕ → EcuResponseResult) → List ℕ → W → Call W UdsResponse
  run_method parse request w =
      await_call (send_and_receive tokio self request w)
        λ raw_response w. done (parse raw_response) w

  run_method_done :
      (parse : List ℕ → EcuResponseResult) (sid : ℕ) (args : List ℕ) (w : W) {x : UdsResponse}
      {v : W}
      → run_method parse (sid ∷ args) w ≡ done (ok x) v
      → (raw : List ℕ) × Served tokio self sid args w raw v × (parse raw ≡ ok x)
  run_method_done parse sid args w {x} {v} h =
      let (raw, u, e, e') = await_call_done (send_and_receive tokio self (sid ∷ args) w) _ h in
      let (same, world) = done-injective e' in
      (raw, rw world at ((send_and_receive-iff-Served tokio self sid args w raw u).0 e), same)

  -- A method returns a response exactly when the request is served by a message that is parsed to it.
  pub run_method-iff-Served :
      (parse : List ℕ → EcuResponseResult) (sid : ℕ) (args : List ℕ) (w : W) (x : UdsResponse)
      (v : W)
      → (run_method parse (sid ∷ args) w ≡ done (ok x) v)
        ↔ ((raw : List ℕ) × Served tokio self sid args w raw v × (parse raw ≡ ok x))
  run_method-iff-Served parse sid args w x v = (
    run_method_done parse sid args w,
    λ (raw, served, e).
        rw ((send_and_receive-iff-Served tokio self sid args w raw v).1 served) (rw e),
  )

  run_method_failed :
      (parse : List ℕ → EcuResponseResult) (sid : ℕ) (args : List ℕ) (w : W) {e : UdsError} {v : W}
      → run_method parse (sid ∷ args) w ≡ done (err e) v
      → Concludes tokio self sid args w (err e) v
        ⊎ ((raw : List ℕ) × Served tokio self sid args w raw v × (parse raw ≡ err e))
  run_method_failed parse sid args w {e} {v} h =
      elim (await_call_failed (send_and_receive tokio self (sid ∷ args) w) _ h) [
        | inl failed ↦
            inl ((send_and_receive-iff-Concludes tokio self sid args w (err e) v).0 failed)
        | inr (raw, u, returned, h') ↦
            let (same, world) = done-injective h' in
            inr (
              raw,
              rw world at ((send_and_receive-iff-Served tokio self sid args w raw u).0 returned),
              same,
            )
      ]

  -- A method fails by the failure of its exchange, or by that of its parser on the message that it is
  -- served with.
  pub run_method-failed_iff :
      (parse : List ℕ → EcuResponseResult) (sid : ℕ) (args : List ℕ) (w : W) (e : UdsError) (v : W)
      → (run_method parse (sid ∷ args) w ≡ done (err e) v) ↔ (
          Concludes tokio self sid args w (err e) v
          ⊎ ((raw : List ℕ) × Served tokio self sid args w raw v × (parse raw ≡ err e)))
  run_method-failed_iff parse sid args w e v = (
    run_method_failed parse sid args w,
    λ h. elim h [
      | inl failed ↦ rw ((send_and_receive-iff-Concludes tokio self sid args w (err e) v).1 failed)
      | inr (raw, served, failed) ↦
          rw ((send_and_receive-iff-Served tokio self sid args w raw v).1 served) (rw failed)
    ],
  )

  pub run_method-Returns :
      IsLive self.socket.isotp_socket
      → (parse : List ℕ → EcuResponseResult) (request : List ℕ) (w : W)
      → Returns (run_method parse request w)
  run_method-Returns live parse request w =
      await_call-Returns (send_and_receive tokio self request w) _
        (send_and_receive-Returns tokio self live request w) (λ raw u. tt)
