-- ===== src/ReadDataByIdentifier/Methods.antt =====
-- The methods of the service ReadDataByIdentifier, from the call to the record.
use uds_rs.Base.{ℕ, List, [], ◌∷◌, as_u8, shr, map}
use uds_rs.NumEnum.{TryFromPrimitive}
use uds_rs.Definitions.{negative_response_code_as_u8}
use uds_rs.Response.{UdsResponse, EcuResponseResult}
use uds_rs.Client.{Tokio, UdsClient}
use uds_rs.Client.Methods.{run_method, run_method-iff-Served}
use uds_rs.Services.{ReturnsParsed}
use uds_rs.ReadDataByIdentifier.{
  u32_max, read_data_by_identifier, read_data_by_identifier_tuple,
  compose_read_data_by_identifier_request, parse_read_data_by_identifier_response,
  parse_read_data_by_identifier_tuple_response,
}
use uds_rs.ReadDataByIdentifier.Request.{
  identifiers_bytes, compose_read_data_by_identifier_request_lem,
}

module _ ⦃nrcs : TryFromPrimitive negative_response_code_as_u8⦄ {W : Type 0} (tokio : Tokio W)
    (self : UdsClient W) (w : W) (x : UdsResponse) (v : W) where
  run-ReturnsParsed :
      (parse : List ℕ → EcuResponseResult) (is : List ℕ)
      → ReturnsParsed tokio self w x v
          (run_method tokio self parse (compose_read_data_by_identifier_request is) w)
          0x22
          (identifiers_bytes is)
          parse
  run-ReturnsParsed parse is =
      rw (compose_read_data_by_identifier_request_lem is)
        (run_method-iff-Served tokio self parse 0x22 (identifiers_bytes is) w x v)

  -- A call with lengths, with one identifier, or with several, returns a response exactly when the
  -- protocol serves the request for all its identifiers with a message that is parsed to it: by the
  -- lengths, as one record to the end of the message, or not beyond the SID.
  pub read_data_by_identifier-ReturnsParsed :
      (requested : List (ℕ × ℕ)) (did did' : ℕ) (dids : List ℕ)
      → ReturnsParsed tokio self w x v
          (read_data_by_identifier_tuple tokio self requested w)
          0x22
          (identifiers_bytes (map (λ p. p.0) requested))
          (parse_read_data_by_identifier_tuple_response requested)
        × ReturnsParsed tokio self w x v
            (read_data_by_identifier tokio self (did ∷ []) w)
            0x22
            (as_u8 (shr did 8) ∷ as_u8 did ∷ [])
            (parse_read_data_by_identifier_tuple_response ((did, u32_max) ∷ []))
        × ReturnsParsed tokio self w x v
            (read_data_by_identifier tokio self (did ∷ did' ∷ dids) w)
            0x22
            (identifiers_bytes (did ∷ did' ∷ dids))
            parse_read_data_by_identifier_response
  unfolding read_data_by_identifier read_data_by_identifier_tuple
  read_data_by_identifier-ReturnsParsed requested did did' dids = (
    run-ReturnsParsed (parse_read_data_by_identifier_tuple_response requested)
        (map (λ p. p.0) requested),
    run-ReturnsParsed (parse_read_data_by_identifier_tuple_response ((did, u32_max) ∷ []))
        (did ∷ []),
    run-ReturnsParsed parse_read_data_by_identifier_response (did ∷ did' ∷ dids),
  )
