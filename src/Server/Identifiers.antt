-- ===== src/Server/Identifiers.antt =====
-- WriteDataByIdentifier and ReadDataByIdentifier with a server that stores data by identifier.
use uds_rs.Base.{
  ℕ, ◌/◌, ◌≡◌, refl, List, [], ◌∷◌, ◌++◌, ok, arith, All, IsByte, IsU16, be_16, as_u8, shr, ◌==◌,
  if◌then◌else◌, Bool, true, false,
}
use uds_rs.NumEnum.{TryFromPrimitive}
use uds_rs.Definitions.{negative_response_code_as_u8}
use uds_rs.Response.{UdsResponse, parsed}
use uds_rs.Client.{done, Tokio, UdsClient}
use uds_rs.Client.Sound.{Served}
use uds_rs.Client.Methods.{run_method-iff-Served}
use uds_rs.WriteDataByIdentifier.{write_data_by_identifier, parse_write_data_by_identifier_response}
use uds_rs.WriteDataByIdentifier.Format.{parse_write_data_by_identifier_response-iff-Accepts}
use uds_rs.ReadDataByIdentifier.{u32_max, read_data_by_identifier}
use mathlib.Core.Path.{subst, sym}
use uds_rs.ReadDataByIdentifier.Methods.{read_data_by_identifier-ReturnsParsed}
use uds_rs.ReadDataByIdentifier.Records.{end, all}
use uds_rs.ReadDataByIdentifier.Format.{parse_read_data_by_identifier_tuple_response-iff-Accepts}

either_bytes :
    (test : Bool) (xs ys : List ℕ)
    → All IsByte xs
    → All IsByte ys
    → All IsByte (if test then xs else ys)
either_bytes true xs ys h h' = h
either_bytes false xs ys h h' = h'

abbrev pub record_of : ℕ → List ℕ → UdsResponse
record_of did bytes =
    UdsResponse.read_data_by_identifier
      (parsed (record { data_records = record { data_identifier = did; bytes = bytes } ∷ [] }))

abbrev pub confirmation_of : ℕ → UdsResponse
confirmation_of did =
    UdsResponse.write_data_by_identifier (parsed (record { data_identifier = did }))

module _ ⦃nrcs : TryFromPrimitive negative_response_code_as_u8⦄ {W : Type 0} (tokio : Tokio W)
    (self : UdsClient W) where
  -- The server knows some identifiers. It writes what it is told to, confirms the identifier, and
  -- changes nothing else; it reads back what it stores.
  pub record IsStore (Known : ℕ → Type 0) (stored : W → ℕ → List ℕ) : Type 0 where
    pub known_range : (did : ℕ) → Known did → IsU16 did
    pub after_write : W → ℕ → List ℕ → W
    pub after_read : W → ℕ → W
    pub writes :
        (w : W) (did : ℕ) (bytes : List ℕ)
        → Known did
        → All IsByte bytes
        → Served tokio self 0x2E (be_16 did ++ bytes) w (0x6E ∷ be_16 did) (after_write w did bytes)
    pub written :
        (w : W) (did k : ℕ) (bytes : List ℕ)
        → Known did
        → All IsByte bytes
        → stored (after_write w did bytes) k ≡ (if k == did then bytes else stored w k)
    pub reads :
        (w : W) (did : ℕ)
        → Known did
        → Served tokio self 0x22
            (be_16 did)
            w
            (0x62 ∷ (be_16 did ++ stored w did))
            (after_read w did)

  high_byte : (did : ℕ) → IsU16 did → as_u8 (shr did 8) ≡ did / 256
  high_byte did h = omega arith

  write_lem :
      (w v : W) (did : ℕ) (bytes : List ℕ)
      → IsU16 did
      → Served tokio self 0x2E (be_16 did ++ bytes) w (0x6E ∷ be_16 did) v
      → write_data_by_identifier tokio self did bytes w ≡ done (ok (confirmation_of did)) v
  unfolding write_data_by_identifier
  write_lem w v did bytes h served =
      (run_method-iff-Served tokio self parse_write_data_by_identifier_response 0x2E
          (as_u8 (shr did 8) ∷ as_u8 did ∷ bytes) w _ v).1
        (
          0x6E ∷ be_16 did,
          subst (λ high. Served tokio self 0x2E (high ∷ as_u8 did ∷ bytes) w (0x6E ∷ be_16 did) v)
              (sym (high_byte did h)) served,
          (parse_write_data_by_identifier_response-iff-Accepts (0x6E ∷ be_16 did) _
                (omega arith, (omega arith, (omega arith, tt)))).1
              (did, [], h, refl, refl),
        )

  read_lem :
      (w v : W) (did : ℕ) (bytes : List ℕ)
      → IsU16 did
      → All IsByte bytes
      → Served tokio self 0x22 (be_16 did) w (0x62 ∷ (be_16 did ++ bytes)) v
      → read_data_by_identifier tokio self (did ∷ []) w ≡ done (ok (record_of did bytes)) v
  unfolding read_data_by_identifier
  read_lem w v did bytes h h' served =
      (read_data_by_identifier-ReturnsParsed tokio self w (record_of did bytes) v [] did did []).1.1
        (
          0x62 ∷ (be_16 did ++ bytes),
          subst
              (λ high.
                Served tokio self 0x22 (high ∷ as_u8 did ∷ []) w (0x62 ∷ (be_16 did ++ bytes)) v)
              (sym (high_byte did h)) served,
          (parse_read_data_by_identifier_tuple_response-iff-Accepts ((did, u32_max) ∷ [])
                (0x62 ∷ (be_16 did ++ bytes)) (record_of did bytes)
                (omega arith, (omega arith, (omega arith, h')))).1
              (_, be_16 did ++ bytes, all bytes refl end, refl, refl),
        )

  -- After the client has written bytes to an identifier of such a server, it reads from this
  -- identifier those bytes, and from every other one that holds bytes what it held before.
  pub write_then_read :
      {Known : ℕ → Type 0} {stored : W → ℕ → List ℕ}
      → IsStore Known stored
      → (w : W) (did did' : ℕ) (bytes : List ℕ) → Known did
      → Known did'
      → All IsByte bytes
      → All IsByte (stored w did')
      → (after : W) × (finally : W) × (write_data_by_identifier tokio self did bytes w
          ≡ done (ok (confirmation_of did)) after)
        × (read_data_by_identifier tokio self (did' ∷ []) after
            ≡ done (ok (record_of did' (if did' == did then bytes else stored w did'))) finally)
  write_then_read {stored = stored} server w did did' bytes known known' h h' =
      let after = server.after_write w did bytes in
      let now = server.written w did did' bytes known h in
      (
        after,
        server.after_read after did',
        write_lem w after did bytes (server.known_range did known)
            (server.writes w did bytes known h),
        read_lem after _ did' _ (server.known_range did' known')
            (either_bytes (did' == did) bytes (stored w did') h h')
            (subst
              (λ held.
                Served tokio self 0x22 (be_16 did') after (0x62 ∷ (be_16 did' ++ held))
                  (server.after_read after did'))
              now (server.reads after did' known')),
      )
