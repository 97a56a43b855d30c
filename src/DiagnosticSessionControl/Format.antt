-- ===== src/DiagnosticSessionControl/Format.antt =====
-- The messages of the service DiagnosticSessionControl as the standard lays them out.
use uds_rs.Base.{ℕ, List, [], ◌∷◌, ◌++◌, ◌≡◌, ◌↔◌, ok, arith, All, IsByte, IsU16, be_16, ◌*◌, ◌+◌}
use uds_rs.Response.{UdsResponse, parsed}
use uds_rs.DiagnosticSessionControl.{parse_diagnostic_session_control_response}

abbrev pub positive_response : ℕ → ℕ → ℕ → List ℕ
positive_response session p2 p2_star = (0x50 ∷ session ∷ be_16 p2) ++ be_16 p2_star

abbrev pub Accepts : List ℕ → UdsResponse → Type 0
Accepts raw response =
    (session : ℕ) × (p2 : ℕ) × (p2_star : ℕ) × (rest : List ℕ) × IsU16 p2
    × IsU16 p2_star
    × (raw ≡ positive_response session p2 p2_star ++ rest)
    × (response
        ≡ UdsResponse.diagnostic_session_control
            (parsed (record { session = session; p2 = p2; p2_star = p2_star })))

parse-Accepts :
    (raw : List ℕ) (response : UdsResponse)
    → All IsByte raw
    → parse_diagnostic_session_control_response raw ≡ ok response
    → Accepts raw response
unfolding parse_diagnostic_session_control_response
parse-Accepts [] response b h = absurd (ground arith)
parse-Accepts (_ ∷ []) response b h = absurd (ground arith)
parse-Accepts (_ ∷ _ ∷ []) response b h = absurd (ground arith)
parse-Accepts (_ ∷ _ ∷ _ ∷ []) response b h = absurd (ground arith)
parse-Accepts (_ ∷ _ ∷ _ ∷ _ ∷ []) response b h = absurd (ground arith)
parse-Accepts (_ ∷ _ ∷ _ ∷ _ ∷ _ ∷ []) response b h = absurd (ground arith)
parse-Accepts (sid ∷ session ∷ h1 ∷ l1 ∷ h2 ∷ l2 ∷ rest) response b h = (
  session,
  h1 * 256 + l1,
  h2 * 256 + l2,
  rest,
  omega arith,
  omega arith,
  ground arith,
  ground arith,
)

parse-positive_response :
    (session p2 p2_star : ℕ) (rest : List ℕ)
    → IsU16 p2
    → IsU16 p2_star
    → parse_diagnostic_session_control_response (positive_response session p2 p2_star ++ rest)
      ≡ ok (
          UdsResponse.diagnostic_session_control
            (parsed (record { session = session; p2 = p2; p2_star = p2_star })))
unfolding parse_diagnostic_session_control_response
parse-positive_response session p2 p2_star rest h h' = ground arith

-- Of a message of bytes, the client accepts exactly one that begins with a positive response, and
-- returns its session and its two timings.
pub parse_diagnostic_session_control_response-iff-Accepts :
    (raw : List ℕ) (response : UdsResponse)
    → All IsByte raw
    → (parse_diagnostic_session_control_response raw ≡ ok response) ↔ Accepts raw response
parse_diagnostic_session_control_response-iff-Accepts raw response bytes = (
  parse-Accepts raw response bytes,
  λ (session, p2, p2_star, rest, h, h', e, e').
      rw (e, e') (parse-positive_response session p2 p2_star rest h h'),
)
