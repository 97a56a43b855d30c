-- ===== src/BasicFunctionality.antt =====
-- examples/basic_functionality.rs: the example program, and src/lib.rs: the two programs in the
-- documentation of the crate.
-- The crates log, env_logger and embedded_can are parameters: what a message does to the world, and
-- which numbers are identifiers on the bus.
pub mod Steps
pub mod Outcome
use Prim.Native.String.{String}
use uds_rs.Base.{ℕ, List, [], ◌∷◌, Option, none, some, Result, ok, err}
use uds_rs.NumEnum.{TryFromPrimitive}
use uds_rs.Definitions.{negative_response_code_as_u8}
use uds_rs.Communication.{UdsCommunicationError}
use uds_rs.Communication.Options.{IsoTp, UdsSocketOptions, vw, default}
use uds_rs.Response.{
  UdsResponse, UdsError, ResetType, reset_type_as_u8, sub_function_as_u8, from_communication_error,
}
use uds_rs.Client.{Call, done, panicked, never, exhausted, Tokio, UdsClient}
use uds_rs.Client.New.{new}
use uds_rs.ReadDataByIdentifier.{read_data_by_identifier}
use uds_rs.ReadDtcInformation.{report_dtc_by_status_mask}
use uds_rs.ClearDiagnosticInformation.{clear_diagnostic_information}
use uds_rs.EcuReset.{ecu_reset}

-- `env_logger::init`, `info!`, `error!` and `StandardId::new`.
pub record Host (W : Type 0) (CanId : Type 0) : Type 0 where
  pub init : W → W
  pub info : String → UdsResponse → W → W
  pub error : String → UdsError → W → W
  pub standard_id : ℕ → Option CanId

module _ {W : Type 0} {CanId : Type 0} (host : Host W CanId) where
  -- A `match` on a result: both arms log it.
  abbrev pub report : String → String → Result UdsResponse UdsError → W → W
  report received failed (ok x) w = host.info received x w
  report received failed (err e) w = host.error failed e w

  -- `.await`, the `match` on its result, and what follows.
  abbrev pub and_report :
      String → String → Call W UdsResponse → (W → Call W (Unit {0})) → Call W (Unit {0})
  and_report received failed (done r v) k = k (report received failed r v)
  and_report received failed (panicked v) k = panicked v
  and_report received failed never k = never
  and_report received failed exhausted k = exhausted

  -- `StandardId::new(..).expect(..)`, and what follows.
  abbrev pub expect_id : Option CanId → W → (CanId → Call W (Unit {0})) → Call W (Unit {0})
  expect_id (some can_id) w k = k can_id
  expect_id none w k = panicked w

-- `?` on a client, and what follows.
abbrev pub with_client :
    {W : Type 0}
    → Result (UdsClient W) UdsError × W
    → (UdsClient W → W → Call W (Unit {0}))
    → Call W (Unit {0})
with_client (ok c, w) k = k c w
with_client (err e, w) k = done (err e) w

-- `?` on the options, and what follows.
abbrev pub with_options :
    {W : Type 0} {A : Type 0}
    → Result A UdsCommunicationError
    → W
    → (A → Call W (Unit {0}))
    → Call W (Unit {0})
with_options (ok socket_options) w k = k socket_options
with_options (err e) w k = done (err (from_communication_error e)) w

module _ ⦃nrcs : TryFromPrimitive negative_response_code_as_u8⦄
    ⦃sub_functions : TryFromPrimitive sub_function_as_u8⦄
    ⦃resets : TryFromPrimitive reset_type_as_u8⦄ {W : Type 0} (tokio : Tokio W) (api : IsoTp W)
    (host : Host W api.CanId) where
  -- The calls that the program makes of its client.
  unfoldable pub run_calls : UdsClient W → W → Call W (Unit {0})
  run_calls c w =
      and_report host "Read data by identifier received"
        "Read single data by identifier failed with error"
        (read_data_by_identifier tokio c (0xF18A ∷ []) w)
        λ w.
          and_report host "Read dtc by status mask" "Read dtc by status mask failed with error"
            (report_dtc_by_status_mask tokio c 0xFF w)
            λ w.
              and_report host "" "Clear diagnostic information failed with error"
                (clear_diagnostic_information tokio c 0xFFFFFF w)
                λ w.
                  and_report host "" "Ecu reset failed with error"
                    (ecu_reset tokio c ResetType.key_off_on_reset w) λ w. done (ok tt) w

  -- The options, the identifiers and the client, and what is done with it.
  abbrev pub with_socket :
      Result (UdsSocketOptions api) UdsCommunicationError
      → (UdsClient W → W → Call W (Unit {0}))
      → W
      → Call W (Unit {0})
  with_socket made k w =
      let w = host.init w in
      with_options made w λ socket_options. expect_id host (host.standard_id 0x774) w λ src.
        expect_id host (host.standard_id 0x70A) w
          λ dst. with_client (new api "can0" src dst socket_options w) k

  unfoldable pub main : W → Call W (Unit {0})
  unfolding run_calls
  main w = with_socket (vw api) run_calls w

  -- src/lib.rs: the two programs in the documentation of the crate.
  unfoldable pub default_example : W → Call W (Unit {0})
  unfolding run_calls
  default_example w = with_socket (ok (default api)) run_calls w

  unfoldable pub vw_example : W → Call W (Unit {0})
  vw_example w = with_socket (vw api) (λ c w. done (ok tt) w) w
