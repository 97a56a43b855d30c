-- ===== src/Client/RejectedSid.antt =====
-- Whose refusals reach the caller of `send_and_receive`.
use uds_rs.Base.{ℕ, ◌<◌, ◌≡◌, ◌↔◌, ◌∙◌, refl, ap, err-injective, List, ◌∷◌, Result, err, arith}
use mathlib.Core.Path.{subst}
use uds_rs.NumEnum.{no_variant, TryFromPrimitive}
use uds_rs.Definitions.{negative_response_code_as_u8}
use uds_rs.Response.{UdsError}
use uds_rs.Client.{done, Tokio, UdsClient, rounds, send_and_receive}
use uds_rs.Client.Exchange.{Exchange}
use uds_rs.Client.Conclusion.{
  Concludes, unsent, unanswered, positive, unreadable, foreign, refused, gave_up, in_time, lost,
  elapsed,
}
use uds_rs.Client.Conclusion.Exact.{send_and_receive-iff-Concludes}
use uds_rs.Client.Ends.{Owns, send_and_receive-Owns}
use uds_rs.Client.Refusals.{parse_for_error-unknown_iff}

module _ ⦃nrcs : TryFromPrimitive negative_response_code_as_u8⦄ {W : Type 0} (tokio : Tokio W)
    (self : UdsClient W) (sid : ℕ) (args : List ℕ) where
  -- The last answer of the exchange is a refusal of the service `s` with a code `c` that is unknown.
  abbrev pub RefusedUnknown : W → ℕ → ℕ → W → Type 0
  RefusedUnknown w s c v =
      (n : ℕ) × (rest : List ℕ) × (n < rounds)
      × Exchange tokio self sid args w n (0x7F ∷ s ∷ c ∷ rest) v
      × (nrcs.try_from c ≡ no_variant c)

  Concludes-RefusedUnknown :
      (s c : ℕ) {w v : W} {r : Result (List ℕ) UdsError}
      → Concludes tokio self sid args w r v
      → r ≡ err (UdsError.unknown_nrc s c)
      → RefusedUnknown w s c v
  Concludes-RefusedUnknown s c (unsent below attempt failed) e = absurd (ground arith)
  Concludes-RefusedUnknown s c (unanswered below attempt sent failed) e = absurd (ground arith)
  Concludes-RefusedUnknown s c (positive below exchange h) e = absurd (ground arith)
  Concludes-RefusedUnknown s c {w} {v} (unreadable {n = n} {raw = raw} below exchange h bad) e =
      let (rest, whole, unknown) =
        (parse_for_error-unknown_iff s c raw).0 (h ∙ ap err (err-injective e)) in
      (n, rest, below, subst (λ m. Exchange tokio self sid args w n m v) whole exchange, unknown)
  Concludes-RefusedUnknown s c (foreign below exchange rejected ne) e = absurd (ground arith)
  Concludes-RefusedUnknown s c (refused below exchange rejected own) e = absurd (ground arith)
  Concludes-RefusedUnknown s c (gave_up last exchange rejected) e = absurd (ground arith)
  Concludes-RefusedUnknown s c (in_time below exchange rejected timely) e = absurd (ground arith)
  Concludes-RefusedUnknown s c (lost below exchange rejected timely) e = absurd (ground arith)
  Concludes-RefusedUnknown s c (elapsed below exchange rejected timely) e = absurd (ground arith)

  RefusedUnknown-Concludes :
      (s c : ℕ) (w v : W)
      → RefusedUnknown w s c v
      → Concludes tokio self sid args w (err (UdsError.unknown_nrc s c)) v
  RefusedUnknown-Concludes s c w v (n, rest, below, exchange, unknown) =
      let raw : List ℕ = 0x7F ∷ s ∷ c ∷ rest in
      unreadable below exchange ((parse_for_error-unknown_iff s c raw).1 (rest, refl, unknown)) tt

  -- An error NRC, a refusal with a known code, that is handed to the caller of a request names the
  -- service of the request. With an unknown code it is otherwise: the caller gets UnknownNRC for the
  -- service `s` exactly when, after fewer than 2 ^ 32 busy responses, the answer refuses `s` with that
  -- code, whichever service was called.
  pub send_and_receive-rejected_sid :
      (w : W) (s c : ℕ) (v : W)
      → Owns sid (send_and_receive tokio self (sid ∷ args) w)
        × ((send_and_receive tokio self (sid ∷ args) w ≡ done (err (UdsError.unknown_nrc s c)) v)
            ↔ RefusedUnknown w s c v)
  send_and_receive-rejected_sid w s c v =
      let exact = send_and_receive-iff-Concludes tokio self sid args w _ v in
      (
        send_and_receive-Owns tokio self sid args w,
        (
          λ h. Concludes-RefusedUnknown s c (exact.0 h) refl,
          λ h. exact.1 (RefusedUnknown-Concludes s c w v h),
        ),
      )
