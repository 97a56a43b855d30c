-- ===== src/BasicFunctionality/Outcome.antt =====
-- How the example programs end.
use mathlib.Core.Path.{sym, subst, subst₂, ◌∙◌}
use uds_rs.Base.{[], ◌∷◌, ◌≡◌, ◌↔◌, ◌⊎◌, inl, inr, refl, some, Result, ok, err}
use uds_rs.NumEnum.{TryFromPrimitive}
use uds_rs.Definitions.{negative_response_code_as_u8}
use uds_rs.Communication.{UdsCommunicationError}
use uds_rs.Communication.Options.{IsoTp, UdsSocketOptions, vw, default}
use uds_rs.Response.{
  UdsError, ResetType, reset_type_as_u8, sub_function_as_u8, from_communication_error,
}
use uds_rs.Client.{Call, done, Tokio, UdsClient}
use uds_rs.Client.New.{new}
use uds_rs.Client.Ends.{IsLive}
use uds_rs.Client.Methods.{run_method-Returns}
use uds_rs.Client.Conclusion.Reached.{done-injective}
use uds_rs.ReadDataByIdentifier.{
  read_data_by_identifier, u32_max, parse_read_data_by_identifier_tuple_response,
  compose_read_data_by_identifier_request,
}
use uds_rs.ReadDtcInformation.{report_dtc_by_status_mask}
use uds_rs.ClearDiagnosticInformation.{clear_diagnostic_information}
use uds_rs.EcuReset.{ecu_reset}
use uds_rs.BasicFunctionality.{
  Host, with_client, run_calls, with_socket, main, default_example, vw_example,
}
use uds_rs.BasicFunctionality.Steps.{
  with_options_done, with_client_done, expect_id_done, Logged, and_report_done, and_report-Logged,
  Returns-Logged,
}

module _ ⦃nrcs : TryFromPrimitive negative_response_code_as_u8⦄
    ⦃sub_functions : TryFromPrimitive sub_function_as_u8⦄
    ⦃resets : TryFromPrimitive reset_type_as_u8⦄ {W : Type 0} (tokio : Tokio W) (api : IsoTp W)
    (host : Host W api.CanId) where
  -- The four calls have returned one after the other, each in the world in which the result of the one
  -- before it was logged.
  abbrev pub Calls : UdsClient W → W → W → Type 0
  Calls c w z =
      (w1 : W) × (w2 : W) × (w3 : W) × Logged host "Read data by identifier received"
        "Read single data by identifier failed with error"
        (read_data_by_identifier tokio c (0xF18A ∷ []) w) w1
      × Logged host "Read dtc by status mask" "Read dtc by status mask failed with error"
          (report_dtc_by_status_mask tokio c 0xFF w1) w2
      × Logged host "" "Clear diagnostic information failed with error"
          (clear_diagnostic_information tokio c 0xFFFFFF w2) w3
      × Logged host "" "Ecu reset failed with error"
          (ecu_reset tokio c ResetType.key_off_on_reset w3) z

  run_calls_done :
      (c : UdsClient W) (w : W) {x : Result (Unit {0}) UdsError} {z : W}
      → run_calls tokio api host c w ≡ done x z
      → (x ≡ ok tt) × Calls c w z
  unfolding run_calls
  run_calls_done c w h =
      let (w1, read, h1) = and_report_done host _ _ (read_data_by_identifier tokio c _ w) _ h in
      let (w2, reported, h2) =
        and_report_done host _ _ (report_dtc_by_status_mask tokio c _ w1) _ h1 in
      let (w3, cleared, h3) =
        and_report_done host _ _ (clear_diagnostic_information tokio c _ w2) _ h2 in
      let (w4, restarted, h4) = and_report_done host _ _ (ecu_reset tokio c _ w3) _ h3 in
      let (same, world) = done-injective h4 in
      (sym same, (w1, w2, w3, read, reported, cleared, subst (Logged host _ _ _) world restarted))

  Calls-run_calls :
      (c : UdsClient W) (w z : W) → Calls c w z → run_calls tokio api host c w ≡ done (ok tt) z
  unfolding run_calls
  Calls-run_calls c w z (w1, w2, w3, read, reported, cleared, restarted) =
      and_report-Logged host _ _ _ _ w1 read
      ∙ and_report-Logged host _ _ _ _ w2 reported
      ∙ and_report-Logged host _ _ _ _ w3 cleared
      ∙ and_report-Logged host _ _ _ _ z restarted

  -- What the opening of a client gives, and the world in which it gives that.
  pub data Opens (made : Result (UdsSocketOptions api) UdsCommunicationError) (w : W)
      : Result (UdsClient W) UdsError → W → Type 0 where
    opened :
        {o : UdsSocketOptions api} {src dst : api.CanId} {r : Result (UdsClient W) UdsError} {u : W}
        → made ≡ ok o
        → host.standard_id 0x774 ≡ some src
        → host.standard_id 0x70A ≡ some dst
        → new api "can0" src dst o (host.init w) ≡ (r, u)
        → Opens made w r u
    no_options :
        {e : UdsCommunicationError}
        → made ≡ err e
        → Opens made w (err (from_communication_error e)) (host.init w)

  with_socket_done :
      (made : Result (UdsSocketOptions api) UdsCommunicationError)
      (k : UdsClient W → W → Call W (Unit {0})) (w : W) {x : Result (Unit {0}) UdsError} {z : W}
      → with_socket tokio api host made k w ≡ done x z
      → ((e : UdsError) × Opens made w (err e) z × (x ≡ err e))
        ⊎ ((c : UdsClient W) × (u : W) × Opens made w (ok c) u × (k c u ≡ done x z))
  with_socket_done made k w h = elim (with_options_done made (host.init w) _ h) [
    | inl (e, failed, same, world) ↦
        inl (_, subst (Opens made w _) (sym world) (no_options failed), same)
    | inr (o, e, h1) ↦
        let (src, valid, h2) = expect_id_done host (host.standard_id 0x774) _ _ h1 in
        let (dst, valid', h3) = expect_id_done host (host.standard_id 0x70A) _ _ h2 in
        elim (with_client_done (new api "can0" src dst o (host.init w)) _ h3) [
          | inl (e', failed, same) ↦ inl (e', opened e valid valid' failed, same)
          | inr (c, u, new_client, h4) ↦ inr (c, u, opened e valid valid' new_client, h4)
        ]
  ]

  Opens-with_socket :
      (made : Result (UdsSocketOptions api) UdsCommunicationError)
      (k : UdsClient W → W → Call W (Unit {0})) (w : W) (r : Result (UdsClient W) UdsError) (u : W)
      → Opens made w r u
      → with_socket tokio api host made k w ≡ with_client (r, u) k
  Opens-with_socket made k w r u (opened e valid valid' new_client) =
      rw (e, valid, valid', new_client) refl
  Opens-with_socket made k w r u (no_options failed) = rw failed refl

  -- The program has opened a client and made its calls, or it could not open one.
  abbrev pub Ran :
      Result (UdsSocketOptions api) UdsCommunicationError
      → W
      → Result (Unit {0}) UdsError
      → W
      → Type 0
  Ran made w (ok _) z = (c : UdsClient W) × (u : W) × Opens made w (ok c) u × Calls c u z
  Ran made w (err e) z = Opens made w (err e) z

  -- The program has opened a client, or it could not open one.
  abbrev pub Connected :
      Result (UdsSocketOptions api) UdsCommunicationError
      → W
      → Result (Unit {0}) UdsError
      → W
      → Type 0
  Connected made w (ok _) z = (c : UdsClient W) × Opens made w (ok c) z
  Connected made w (err e) z = Opens made w (err e) z

  module _ (made : Result (UdsSocketOptions api) UdsCommunicationError) (w : W) where
    done-Ran :
        (x : Result (Unit {0}) UdsError) (z : W)
        → with_socket tokio api host made (run_calls tokio api host) w ≡ done x z
        → Ran made w x z
    done-Ran x z h = elim (with_socket_done made (run_calls tokio api host) w h) [
      | inl (e, failed, same) ↦ subst (λ y. Ran made w y z) (sym same) failed
      | inr (c, u, opens, h') ↦
          let (same, calls) = run_calls_done c u h' in
          subst (λ y. Ran made w y z) (sym same) (c, u, opens, calls)
    ]

    Ran-done :
        (x : Result (Unit {0}) UdsError) (z : W)
        → Ran made w x z
        → with_socket tokio api host made (run_calls tokio api host) w ≡ done x z
    Ran-done (ok _) z (c, u, opens, calls) =
        Opens-with_socket made _ w (ok c) u opens ∙ Calls-run_calls c u z calls
    Ran-done (err e) z opens = Opens-with_socket made _ w (err e) z opens

    done-Connected :
        (x : Result (Unit {0}) UdsError) (z : W)
        → with_socket tokio api host made (λ c w. done (ok tt) w) w ≡ done x z
        → Connected made w x z
    done-Connected x z h = elim (with_socket_done made (λ c w. done (ok tt) w) w h) [
      | inl (e, failed, same) ↦ subst (λ y. Connected made w y z) (sym same) failed
      | inr (c, u, opens, h') ↦
          let (same, world) = done-injective h' in subst₂ (Connected made w) same world (c, opens)
    ]

    Connected-done :
        (x : Result (Unit {0}) UdsError) (z : W)
        → Connected made w x z
        → with_socket tokio api host made (λ c w. done (ok tt) w) w ≡ done x z
    Connected-done (ok _) z (c, opens) = Opens-with_socket made _ w (ok c) z opens
    Connected-done (err e) z opens = Opens-with_socket made _ w (err e) z opens

  -- The example program, with the options of `vw`, and the first one in the documentation, with the
  -- default options, return without an error exactly after they have opened a client and made the four
  -- calls, and logged what each returned, be it a response or an error; the second one in the
  -- documentation does so after it has opened a client. They return an error exactly when the options
  -- could not be made or the socket could not be opened: that error, in the world then.
  pub programs-iff-Ran :
      (w : W) (x : Result (Unit {0}) UdsError) (z : W)
      → ((main tokio api host w ≡ done x z) ↔ Ran (vw api) w x z)
        × ((default_example tokio api host w ≡ done x z) ↔ Ran (ok (default api)) w x z)
        × ((vw_example tokio api host w ≡ done x z) ↔ Connected (vw api) w x z)
  unfolding main default_example vw_example
  programs-iff-Ran w x z = (
    (done-Ran (vw api) w x z, Ran-done (vw api) w x z),
    (done-Ran (ok (default api)) w x z, Ran-done (ok (default api)) w x z),
    (done-Connected (vw api) w x z, Connected-done (vw api) w x z),
  )

  -- If the program opens a client on whose socket every await completes, it makes all four calls and
  -- returns without an error, whatever the ECU sends.
  pub main_progress :
      (w : W) (c : UdsClient W) (u : W)
      → Opens (vw api) w (ok c) u
      → IsLive c.socket.isotp_socket
      → (z : W) × Calls c u z × (main tokio api host w ≡ done (ok tt) z)
  unfolding read_data_by_identifier report_dtc_by_status_mask clear_diagnostic_information ecu_reset
  main_progress w c u opens live =
      let (w1, read) = Returns-Logged host _ _ (read_data_by_identifier tokio c (0xF18A ∷ []) u) (
        run_method-Returns tokio c live
          (parse_read_data_by_identifier_tuple_response ((0xF18A, u32_max) ∷ []))
          (compose_read_data_by_identifier_request (0xF18A ∷ [])) u) in
      let (w2, reported) =
        Returns-Logged host _ _ (report_dtc_by_status_mask tokio c 0xFF w1)
          (run_method-Returns tokio c live _ _ w1) in
      let (w3, cleared) =
        Returns-Logged host _ _ (clear_diagnostic_information tokio c 0xFFFFFF w2)
          (run_method-Returns tokio c live _ _ w2) in
      let (w4, restarted) =
        Returns-Logged host _ _ (ecu_reset tokio c ResetType.key_off_on_reset w3)
          (run_method-Returns tokio c live _ _ w3) in
      let calls : Calls c u w4 = (w1, w2, w3, read, reported, cleared, restarted) in
      (w4, calls, (programs-iff-Ran w (ok tt) w4).0.1 (c, u, opens, calls))
