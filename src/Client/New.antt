-- ===== src/Client/New.antt =====
-- src/uds.rs: `UdsClient::new`.
use Prim.Native.String.{String}
use mathlib.Core.Path.{subst}
use uds_rs.Base.{
  Result, ok, err, ◌≡◌, some, none, refl, >>=-eq-ok, map_err, map_err-eq-ok, ok-injective,
}
use uds_rs.Communication.{Error, UdsCommunicationError, UdsSocket, IsoTpSocket}
use uds_rs.Communication.Options.{
  IsoTp, UdsSocketOptions, new_socket, vw, default, padding_flags, wrap_socket,
}
use uds_rs.Response.{UdsError, from_communication_error}
use uds_rs.Client.{UdsClient}

abbrev pub wrap_client :
    {W : Type 0}
    → Result (UdsSocket W) UdsCommunicationError × W
    → Result (UdsClient W) UdsError × W
wrap_client (ok socket, w) = (ok (record { socket = socket }), w)
wrap_client (err e, w) = (err (from_communication_error e), w)

module _ {W : Type 0} (api : IsoTp W) where
  unfoldable pub new :
      String → api.CanId → api.CanId → UdsSocketOptions api → W → Result (UdsClient W) UdsError × W
  new canifc src dst options w = wrap_client (new_socket api canifc src dst options w)

  -- What a caller gets of an opened socket, or of the failure to open one.
  abbrev pub client_of : Result (IsoTpSocket W) Error × W → Result (UdsClient W) UdsError × W
  client_of (ok socket, w) = (ok (record { socket = record { isotp_socket = socket } }), w)
  client_of (err Error.io, w) =
      (err (UdsError.communication_error UdsCommunicationError.socket_can_io_error), w)
  client_of (err Error.lookup, w) =
      (err (UdsError.communication_error UdsCommunicationError.failed_to_find_can_device), w)

  wrapped : (p : Result (IsoTpSocket W) Error × W) → wrap_client (wrap_socket api p) ≡ client_of p
  wrapped (ok socket, w) = refl
  wrapped (err Error.io, w) = refl
  wrapped (err Error.lookup, w) = refl

  -- The flags ask for padding in both directions.
  abbrev pub Pads : api.Behaviour → Type 0
  Pads flags =
      api.Contains flags api.can_isotp_rx_padding × api.Contains flags api.can_isotp_tx_padding

  padding_flags-Pads : Pads (padding_flags api)
  padding_flags-Pads = (
    api.set-keeps api.can_isotp_rx_padding api.can_isotp_tx_padding api.can_isotp_rx_padding
        (api.Contains-refl api.can_isotp_rx_padding),
    api.set-Contains api.can_isotp_rx_padding api.can_isotp_tx_padding,
  )

  -- With the default options the socket is opened plainly. With the options of `vw` it is opened with
  -- options that are made and then set with flags that contain the padding flags of both directions;
  -- flow control and link layer options are left out. A failure to open it is reported by its cause.
  pub new-options :
      (canifc : String) (src dst : api.CanId) (o : UdsSocketOptions api) (w : W)
      → vw api ≡ ok o
      → (new canifc src dst (default api) w ≡ client_of (api.open_socket canifc src dst w))
        × ((base : api.IsoTpOptions) × (initial : api.Behaviour) × (runtime : api.Behaviour) × Pads
              initial
            × Pads runtime
            × (api.new initial 1000 255 0x55 0xAA 255 ≡ ok base)
            × (new canifc src dst o w
                ≡ client_of (
                    api.open_with_opts canifc src dst
                      (some (api.set_flags base runtime))
                      none
                      none
                      w)))
  unfolding new new_socket vw
  new-options canifc src dst o w e =
      let flags = padding_flags api in
      let (base, made, filled) = >>=-eq-ok (map_err _ (api.new flags 1000 255 0x55 0xAA 255)) _ e in
      (
        wrapped (api.open_socket canifc src dst w),
        (
          base,
          flags,
          flags,
          padding_flags-Pads,
          padding_flags-Pads,
          map_err-eq-ok _ _ made,
          subst
              (λ o.
                new canifc src dst o w
                ≡ client_of (
                    api.open_with_opts canifc src dst (some (api.set_flags base flags)) none none
                      w))
              (ok-injective filled)
              (wrapped
                (api.open_with_opts canifc src dst (some (api.set_flags base flags)) none none w)),
        ),
      )
