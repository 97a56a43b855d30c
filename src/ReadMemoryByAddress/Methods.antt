-- ===== src/ReadMemoryByAddress/Methods.antt =====
-- What `read_memory_by_address` returns.
use uds_rs.Base.{
  ℕ, List, [], ◌∷◌, ◌++◌, ◌≡◌, ◌≢◌, ◌↔◌, ◌⊎◌, inl, inr, refl, ok, err, arith, true, Bool-cases,
  ◌!=◌,
}
use mathlib.Core.Path.{subst₂}
use uds_rs.NumEnum.{TryFromPrimitive}
use uds_rs.Definitions.{negative_response_code_as_u8}
use uds_rs.Response.{UdsResponse, UdsError, parsed}
use uds_rs.Client.{done, Tokio, UdsClient, return_panic, send_and_receive}
use uds_rs.Client.Sound.{Served, send_and_receive-iff-Served}
use uds_rs.Client.Methods.{await_call_done, await_call_failed}
use uds_rs.Client.Conclusion.{Concludes}
use uds_rs.Client.Conclusion.Exact.{send_and_receive-iff-Concludes}
use uds_rs.ReadMemoryByAddress.{formulate_request, parse_response, read_memory_by_address}

parse_done :
    {W : Type 0} (raw : List ℕ) {u v : W} {x : UdsResponse}
    → return_panic (parse_response raw) u ≡ done (ok x) v
    → (data_record : List ℕ) × (raw ≡ 0x63 ∷ data_record)
      × (x ≡ UdsResponse.read_memory_by_address (parsed (record { data_record = data_record })))
      × (u ≡ v)
unfolding parse_response
parse_done [] h = absurd (ground arith)
parse_done (sid ∷ rest) h = (rest, ground arith, ground arith, ground arith)

parse_failed :
    {W : Type 0} (raw : List ℕ) {u v : W} {e : UdsError}
    → return_panic (parse_response raw) u ≡ done (err e) v
    → (sid : ℕ) × (rest : List ℕ) × (sid ≢ 0x63)
      × (raw ≡ sid ∷ rest)
      × (e ≡ UdsError.sid_mismatch 0x63 sid (sid ∷ rest))
      × (u ≡ v)
unfolding parse_response
parse_failed [] h = absurd (ground arith)
parse_failed (sid ∷ rest) h = elim (Bool-cases (sid != 0x63)) [
  | inl foreign ↦ (sid, rest, ground arith, refl, ground arith, ground arith)
  | inr own ↦ cc (rw own at h)
]

module _ ⦃nrcs : TryFromPrimitive negative_response_code_as_u8⦄ {W : Type 0} (tokio : Tokio W)
    (self : UdsClient W) where
  abbrev pub Delivers : List ℕ → W → UdsResponse → W → Type 0
  Delivers args w x v =
      (data_record : List ℕ) × Served tokio self 0x23 args w (0x63 ∷ data_record) v
      × (x ≡ UdsResponse.read_memory_by_address (parsed (record { data_record = data_record })))

  returns :
      (identifier : ℕ) (memory_address memory_size : List ℕ) (w : W) (x : UdsResponse) (v : W)
      → read_memory_by_address tokio self identifier memory_address memory_size w ≡ done (ok x) v
      → Delivers (identifier ∷ memory_address ++ memory_size) w x v
  unfolding read_memory_by_address formulate_request
  returns identifier memory_address memory_size w x v h =
      let request = formulate_request identifier memory_address memory_size in
      let args = identifier ∷ memory_address ++ memory_size in
      let (raw, u, e, e') = await_call_done (send_and_receive tokio self request w) _ h in
      let (data_record, whole, same, world) = parse_done raw e' in
      let served = (send_and_receive-iff-Served tokio self 0x23 args w raw u).0 e in
      (data_record, subst₂ (λ l t. Served tokio self 0x23 args w l t) whole world served, same)

  -- `read_memory_by_address` returns exactly the bytes that follow 0x63 in the message that the
  -- protocol serves the request with.
  pub read_memory_by_address-returns_iff :
      (identifier : ℕ) (memory_address memory_size : List ℕ) (w : W) (x : UdsResponse) (v : W)
      → (read_memory_by_address tokio self identifier memory_address memory_size w ≡ done (ok x) v)
        ↔ Delivers (identifier ∷ memory_address ++ memory_size) w x v
  unfolding read_memory_by_address formulate_request parse_response
  read_memory_by_address-returns_iff identifier memory_address memory_size w x v = (
    returns identifier memory_address memory_size w x v,
    λ (data_record, served, same). rw (
      (send_and_receive-iff-Served tokio self 0x23 (identifier ∷ memory_address ++ memory_size) w
            (0x63 ∷ data_record) v).1
          served,
      same,
    ),
  )

  -- The call fails with `e`, with the world then `v`: its exchange ends so, or it is served with a
  -- message of another SID, which the error carries.
  abbrev pub Misses : List ℕ → W → UdsError → W → Type 0
  Misses args w e v =
      Concludes tokio self 0x23 args w (err e) v
      ⊎ ((sid : ℕ) × (rest : List ℕ) × (sid ≢ 0x63)
          × Served tokio self 0x23 args w (sid ∷ rest) v
          × (e ≡ UdsError.sid_mismatch 0x63 sid (sid ∷ rest)))

  fails :
      (identifier : ℕ) (memory_address memory_size : List ℕ) (w : W) (e : UdsError) (v : W)
      → read_memory_by_address tokio self identifier memory_address memory_size w ≡ done (err e) v
      → Misses (identifier ∷ memory_address ++ memory_size) w e v
  unfolding read_memory_by_address formulate_request
  fails identifier memory_address memory_size w e v h =
      let request = formulate_request identifier memory_address memory_size in
      let args = identifier ∷ memory_address ++ memory_size in
      elim (await_call_failed (send_and_receive tokio self request w) _ h) [
        | inl failed ↦
            inl ((send_and_receive-iff-Concludes tokio self 0x23 args w (err e) v).0 failed)
        | inr (raw, u, e', h') ↦
            let (sid, rest, ne, whole, same, world) = parse_failed raw h' in
            let served = (send_and_receive-iff-Served tokio self 0x23 args w raw u).0 e' in
            inr (
              sid,
              rest,
              ne,
              subst₂ (λ l t. Served tokio self 0x23 args w l t) whole world served,
              same,
            )
      ]

  Misses-fails :
      (identifier : ℕ) (memory_address memory_size : List ℕ) (w : W) (e : UdsError) (v : W)
      → Misses (identifier ∷ memory_address ++ memory_size) w e v
      → read_memory_by_address tokio self identifier memory_address memory_size w ≡ done (err e) v
  unfolding read_memory_by_address formulate_request parse_response
  Misses-fails identifier memory_address memory_size w e v (inl ended) =
      let args = identifier ∷ memory_address ++ memory_size in
      rw ((send_and_receive-iff-Concludes tokio self 0x23 args w (err e) v).1 ended)
  Misses-fails identifier memory_address memory_size w e v (inr (sid, rest, ne, served, same)) =
      let args = identifier ∷ memory_address ++ memory_size in
      let other : (sid != 0x63) ≡ true = ground arith in
      rw ((send_and_receive-iff-Served tokio self 0x23 args w (sid ∷ rest) v).1 served, other, same)

  -- `read_memory_by_address` returns exactly the bytes that follow 0x63 in the message that the
  -- protocol serves the request with. It fails exactly where the exchange does, and with a SID mismatch
  -- for a message that begins with another byte.
  pub read_memory_by_address-iff_served :
      (identifier : ℕ) (memory_address memory_size : List ℕ) (w : W) (x : UdsResponse)
      (e : UdsError) (v : W)
      → ((read_memory_by_address tokio self identifier memory_address memory_size w ≡ done (ok x) v)
          ↔ Delivers (identifier ∷ memory_address ++ memory_size) w x v)
        × ((read_memory_by_address tokio self identifier memory_address memory_size w
              ≡ done (err e) v)
            ↔ Misses (identifier ∷ memory_address ++ memory_size) w e v)
  read_memory_by_address-iff_served identifier memory_address memory_size w x e v = (
    read_memory_by_address-returns_iff identifier memory_address memory_size w x v,
    (
      fails identifier memory_address memory_size w e v,
      Misses-fails identifier memory_address memory_size w e v,
    ),
  )
