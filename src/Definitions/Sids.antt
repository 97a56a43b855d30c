-- ===== src/Definitions/Sids.antt =====
-- SIDs of requests and of responses.
use uds_rs.Base.{ℕ, ◌+◌, ◌≡◌, ◌≢◌, IsByte, arith}
use uds_rs.Definitions.{
  to_received_sid, from_received_sid, negative_response_sid, ServiceIdentifier,
  service_identifier_as_u8,
}

-- On bytes the two functions are inverse to one another, wherever the sum or the difference wraps.
received_sid_inverse :
    (sid : ℕ)
    → IsByte sid
    → (from_received_sid (to_received_sid sid) ≡ sid)
      × (to_received_sid (from_received_sid sid) ≡ sid)
unfolding to_received_sid from_received_sid
received_sid_inverse sid h = omega arith

-- The SID of a service's positive response is 0x40 above the service's, within a byte, and is never
-- the SID of negative responses.
to_received_sid-service :
    (s : ServiceIdentifier)
    → (to_received_sid (service_identifier_as_u8 s) ≡ service_identifier_as_u8 s + 0x40)
      × (to_received_sid (service_identifier_as_u8 s) ≢ negative_response_sid)
unfolding to_received_sid
to_received_sid-service s = ground arith

-- The SID of each service is answered under a SID that is 0x40 above it, within a byte, that is not
-- the one of refusals, and from which the SID of the service is found again. On all bytes the two
-- functions are inverse to one another, also where the sum or the difference wraps.
pub received_sids_lem :
    (s : ServiceIdentifier) (sid : ℕ)
    → IsByte sid
    → (to_received_sid (service_identifier_as_u8 s) ≡ service_identifier_as_u8 s + 0x40)
      × (to_received_sid (service_identifier_as_u8 s) ≢ negative_response_sid)
      × (from_received_sid (service_identifier_as_u8 s + 0x40) ≡ service_identifier_as_u8 s)
      × (from_received_sid (to_received_sid sid) ≡ sid)
      × (to_received_sid (from_received_sid sid) ≡ sid)
unfolding from_received_sid
received_sids_lem s sid h =
    let (sum, positive) = to_received_sid-service s in
    let (back, forth) = received_sid_inverse sid h in (sum, positive, ground arith, back, forth)
