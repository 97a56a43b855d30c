-- ===== src/Server/Memory.antt =====
-- ReadMemoryByAddress with a server that holds a memory.
use uds_rs.Base.{ℕ, ◌^◌, ◌<◌, ◌≡◌, ◌∙◌, refl, List, ◌∷◌, ◌++◌, Option, some, ok, IsU64}
use uds_rs.NumEnum.{TryFromPrimitive}
use uds_rs.Definitions.{negative_response_code_as_u8}
use uds_rs.Response.{UdsResponse, parsed}
use uds_rs.Client.{done, Tokio, UdsClient}
use uds_rs.Client.Sound.{Served}
use uds_rs.ReadMemoryByAddress.{formulate_request, read_memory_by_address_simplified}
use uds_rs.ReadMemoryByAddress.Convert.{wanted}
use uds_rs.ReadMemoryByAddress.RoundTrip.{read_request}
use uds_rs.ReadMemoryByAddress.Methods.{read_memory_by_address-returns_iff}
use uds_rs.ReadMemoryByAddress.Simplified.{read_memory_by_address_simplified_fits}

module _ ⦃nrcs : TryFromPrimitive negative_response_code_as_u8⦄ {W : Type 0} (tokio : Tokio W)
    (self : UdsClient W) where
  -- The server reads the address and the size from a request, and answers with the region of its
  -- memory that they tell.
  pub record IsMemory (region : W → ℕ → ℕ → List ℕ) : Type 0 where
    pub after_read : W → ℕ → ℕ → W
    pub serves :
        (w : W) (args : List ℕ) (memory_address memory_size : ℕ)
        → read_request (0x23 ∷ args) ≡ some (memory_address, memory_size)
        → Served tokio self 0x23 args w
            (0x63 ∷ region w memory_address memory_size)
            (after_read w memory_address memory_size)

  -- With such a server, the simplified method returns the region of the memory at the u64 address and
  -- of the u64 size that it is called with, if both fit in the bytes wanted for them.
  pub read_memory_by_address_simplified-region :
      {region : W → ℕ → ℕ → List ℕ} (server : IsMemory region) (memory_address memory_size : ℕ)
      (address_len size_len : Option ℕ) (w : W)
      → IsU64 memory_address
      → IsU64 memory_size
      → memory_address < 256 ^ wanted address_len memory_address
      → memory_size < 256 ^ wanted size_len memory_size
      → read_memory_by_address_simplified tokio self memory_address memory_size address_len size_len
          w
        ≡ done
            (ok (
              UdsResponse.read_memory_by_address
                (parsed (record { data_record = region w memory_address memory_size }))))
            (server.after_read w memory_address memory_size)
  unfolding formulate_request
  read_memory_by_address_simplified-region server n n' l l' w range range' fits fits' =
      let (identifier, address, size, request, same) =
        read_memory_by_address_simplified_fits tokio self n n' l l' w range range' fits fits' in
      let served = server.serves w (identifier ∷ address ++ size) n n' request in
      same
      ∙ (read_memory_by_address-returns_iff tokio self identifier address size w _ _).1
          (_, served, refl)
