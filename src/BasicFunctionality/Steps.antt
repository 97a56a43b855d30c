-- ===== src/BasicFunctionality/Steps.antt =====
-- The steps of the example program: a step of a program that returns has returned.
use Prim.Native.String.{String}
use mathlib.Core.Path.{sym}
use uds_rs.Base.{◌≡◌, ◌⊎◌, inl, inr, refl, Option, none, some, Result, ok, err}
use uds_rs.Communication.{UdsCommunicationError}
use uds_rs.Response.{UdsResponse, UdsError, from_communication_error}
use uds_rs.Client.{Call, done, panicked, never, exhausted, UdsClient}
use uds_rs.Client.Ends.{Returns}
use uds_rs.Client.Methods.{Returns-done}
use uds_rs.Client.Conclusion.Reached.{done-injective}
use uds_rs.BasicFunctionality.{Host, report, and_report, expect_id, with_client, with_options}

pub with_options_done :
    {W A : Type 0} (made : Result A UdsCommunicationError) (w : W) (k : A → Call W (Unit {0}))
    {x : Result (Unit {0}) UdsError} {z : W}
    → with_options made w k ≡ done x z
    → ((e : UdsCommunicationError) × (made ≡ err e)
        × (x ≡ err (from_communication_error e))
        × (z ≡ w))
      ⊎ ((a : A) × (made ≡ ok a) × (k a ≡ done x z))
with_options_done (ok a) w k h = inr (a, refl, h)
with_options_done (err e) w k h =
    let (same, world) = done-injective h in inl (e, refl, sym same, sym world)

pub with_client_done :
    {W : Type 0} (p : Result (UdsClient W) UdsError × W) (k : UdsClient W → W → Call W (Unit {0}))
    {x : Result (Unit {0}) UdsError} {z : W}
    → with_client p k ≡ done x z
    → ((e : UdsError) × (p ≡ (err e, z)) × (x ≡ err e))
      ⊎ ((c : UdsClient W) × (u : W) × (p ≡ (ok c, u)) × (k c u ≡ done x z))
with_client_done (ok c, u) k h = inr (c, u, refl, h)
with_client_done (err e, u) k h =
    let (same, world) = done-injective h in inl (e, λ i. (err e, world i), sym same)

module _ {W : Type 0} {CanId : Type 0} (host : Host W CanId) where
  pub expect_id_done :
      (o : Option CanId) (w : W) (k : CanId → Call W (Unit {0})) {x : Result (Unit {0}) UdsError}
      {z : W}
      → expect_id host o w k ≡ done x z
      → (can_id : CanId) × (o ≡ some can_id) × (k can_id ≡ done x z)
  expect_id_done (some can_id) w k h = (can_id, refl, h)
  expect_id_done none w k h = cc

  -- The call has returned, and its result was logged.
  abbrev pub Logged : String → String → Call W UdsResponse → W → Type 0
  Logged received failed c u =
      (r : Result UdsResponse UdsError) × (v : W) × (c ≡ done r v)
      × (u ≡ report host received failed r v)

  pub and_report_done :
      (received failed : String) (c : Call W UdsResponse) (k : W → Call W (Unit {0}))
      {x : Result (Unit {0}) UdsError} {z : W}
      → and_report host received failed c k ≡ done x z
      → (u : W) × Logged received failed c u × (k u ≡ done x z)
  and_report_done received failed (done r v) k h =
      (report host received failed r v, (r, v, refl, refl), h)
  and_report_done received failed (panicked v) k h = cc
  and_report_done received failed never k h = cc
  and_report_done received failed exhausted k h = cc

  pub and_report-Logged :
      (received failed : String) (c : Call W UdsResponse) (k : W → Call W (Unit {0})) (u : W)
      → Logged received failed c u
      → and_report host received failed c k ≡ k u
  and_report-Logged received failed c k u (r, v, e, world) = rw (e, world) refl

  pub Returns-Logged :
      (received failed : String) (c : Call W UdsResponse)
      → Returns c
      → (u : W) × Logged received failed c u
  Returns-Logged received failed c h =
      let (r, v, e) = Returns-done c h in (report host received failed r v, (r, v, e, refl))
