-- ===== src/ReadMemoryByAddress/Panics.antt =====
-- The panic of `read_memory_by_address`.
use uds_rs.Base.{ℕ, List, [], ◌∷◌, ◌++◌, ◌≡◌, ◌↔◌, ◌<◌, refl, some, ok, err, arith}
use uds_rs.NumEnum.{TryFromPrimitive}
use uds_rs.Definitions.{NegativeResponseCode, negative_response_code_as_u8}
use uds_rs.Communication.{receive}
use uds_rs.Client.{
  Call, done, panicked, never, exhausted, Tokio, UdsClient, return_panic, await_call,
  send_and_receive, rounds, parse_for_error,
}
use uds_rs.Client.Exchange.{Exchange, Rejects}
use uds_rs.Client.Sound.{Served, answered, delayed, send_and_receive-iff-Served}
use uds_rs.Client.Ends.{Ends, send_and_receive-Ends}
use uds_rs.ReadMemoryByAddress.{formulate_request, parse_response, read_memory_by_address}

await_call_panicked :
    {W A B : Type 0} (c : Call W A) (k : A → W → Call W B) {v : W}
    → Ends c
    → await_call c k ≡ panicked v
    → (a : A) × (u : W) × (c ≡ done (ok a) u) × (k a u ≡ panicked v)
await_call_panicked (done (ok a) u) k ends h = (a, u, refl, h)
await_call_panicked (done (err e) u) k ends h = cc
await_call_panicked (panicked u) k ends h = absurd ends
await_call_panicked never k ends h = cc
await_call_panicked exhausted k ends h = cc

parse_panics :
    {W : Type 0} (raw : List ℕ) {u v : W}
    → return_panic (parse_response raw) u ≡ panicked v
    → (raw ≡ []) × (u ≡ v)
unfolding parse_response
parse_panics [] h = (refl, ground arith)
parse_panics (sid ∷ rest) h = absurd (ground arith)

module _ ⦃nrcs : TryFromPrimitive negative_response_code_as_u8⦄ {W : Type 0} (tokio : Tokio W)
    (self : UdsClient W) where
  -- The request `request` is answered by ResponsePending, and the response that comes in time is
  -- empty.
  pub record DelayedEmpty (args : List ℕ) (w v : W) : Type 0 where
    pub n : ℕ
    pub last : List ℕ
    pub u : W
    pub below : n < rounds
    pub exchange : Exchange tokio self 0x23 args w n last u
    pub rejected :
        Rejects 0x23 NegativeResponseCode.request_correctly_received_response_pending last
    pub empty : tokio.timeout 2500 (receive self.socket) u ≡ (some (ok []), v)

  Served-empty :
      (args : List ℕ) {w v : W} {raw : List ℕ}
      → Served tokio self 0x23 args w raw v
      → raw ≡ []
      → DelayedEmpty args w v
  unfolding parse_for_error
  Served-empty args (answered below exchange positive) e = cc (rw e at positive)
  Served-empty args (delayed {n = n} {last = last} {u = u} below exchange rejected timely) e =
      record {
        n = n;
        last = last;
        u = u;
        below = below;
        exchange = exchange;
        rejected = rejected;
        empty = rw e at timely;
      }

  panics :
      (identifier : ℕ) (memory_address memory_size : List ℕ) (w v : W)
      → read_memory_by_address tokio self identifier memory_address memory_size w ≡ panicked v
      → DelayedEmpty (identifier ∷ memory_address ++ memory_size) w v
  unfolding read_memory_by_address formulate_request
  panics identifier memory_address memory_size w v h =
      let request = formulate_request identifier memory_address memory_size in
      let args = identifier ∷ memory_address ++ memory_size in
      let (raw, u, e, e') =
        await_call_panicked (send_and_receive tokio self request w) _
          (send_and_receive-Ends tokio self request w) h in
      let (empty, world) = parse_panics raw e' in
      Served-empty args
        (rw world at ((send_and_receive-iff-Served tokio self 0x23 args w raw u).0 e)) empty

  -- `read_memory_by_address` panics exactly when the ECU answers ResponsePending and then, in time,
  -- an empty response.
  pub read_memory_by_address-panics_iff :
      (identifier : ℕ) (memory_address memory_size : List ℕ) (w v : W)
      → (read_memory_by_address tokio self identifier memory_address memory_size w ≡ panicked v)
        ↔ DelayedEmpty (identifier ∷ memory_address ++ memory_size) w v
  unfolding read_memory_by_address formulate_request parse_response
  read_memory_by_address-panics_iff identifier memory_address memory_size w v = (
    panics identifier memory_address memory_size w v,
    λ d. rw (
        (send_and_receive-iff-Served tokio self 0x23 (identifier ∷ memory_address ++ memory_size) w
            [] v).1
          (delayed d.below d.exchange d.rejected d.empty)),
  )
