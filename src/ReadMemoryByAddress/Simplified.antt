-- ===== src/ReadMemoryByAddress/Simplified.antt =====
-- `read_memory_by_address_simplified`, from its numbers to the request.
use uds_rs.Base.{ℕ, ◌^◌, ◌<◌, ◌≤◌, ◌≡◌, ◌⊎◌, refl, List, Option, some, err, IsU64}
use uds_rs.NumEnum.{TryFromPrimitive}
use uds_rs.Definitions.{negative_response_code_as_u8}
use uds_rs.Response.{UdsError}
use uds_rs.Client.{done, Tokio, UdsClient}
use uds_rs.ReadMemoryByAddress.{
  formulate_request, read_memory_by_address, read_memory_by_address_simplified,
}
use uds_rs.ReadMemoryByAddress.Convert.{
  wanted, convert_from_simple_to_normal_fits, convert_from_simple_to_normal_short,
}
use uds_rs.ReadMemoryByAddress.RoundTrip.{read_request, read_request-convert}

module _ ⦃nrcs : TryFromPrimitive negative_response_code_as_u8⦄ {W : Type 0} (tokio : Tokio W)
    (self : UdsClient W) (memory_address memory_size : ℕ) (address_len size_len : Option ℕ) (w : W)
    (address_range : IsU64 memory_address) (size_range : IsU64 memory_size) where
  -- Where both u64 numbers fit in the bytes wanted for them, the simplified method is the full one, with
  -- arguments whose request a server reads as this address and this size.
  pub read_memory_by_address_simplified_fits :
      memory_address < 256 ^ wanted address_len memory_address
      → memory_size < 256 ^ wanted size_len memory_size
      → (identifier : ℕ) × (address : List ℕ) × (size : List ℕ) × (read_request
            (formulate_request identifier address size)
          ≡ some (memory_address, memory_size))
        × (read_memory_by_address_simplified tokio self memory_address memory_size address_len
              size_len w
            ≡ read_memory_by_address tokio self identifier address size w)
  unfolding read_memory_by_address_simplified
  read_memory_by_address_simplified_fits fits fits' =
      let e =
        convert_from_simple_to_normal_fits memory_address memory_size address_len size_len
          address_range size_range fits fits' in
      (
        _,
        _,
        _,
        read_request-convert memory_address memory_size address_len size_len _ address_range
            size_range e,
        rw e refl,
      )

  -- Where one of two u64 numbers does not fit in the bytes wanted for it, the simplified method
  -- refuses its arguments and leaves the world as it is: no message is sent.
  pub read_memory_by_address_simplified_short :
      (256 ^ wanted address_len memory_address ≤ memory_address)
        ⊎ (256 ^ wanted size_len memory_size ≤ memory_size)
      → read_memory_by_address_simplified tokio self memory_address memory_size address_len size_len
          w
        ≡ done (err UdsError.invalid_argument) w
  unfolding read_memory_by_address_simplified
  read_memory_by_address_simplified_short short = rw (
      convert_from_simple_to_normal_short memory_address memory_size address_len size_len
        address_range size_range short)
