-- ===== src/Communication/Options.antt =====
-- src/uds/communication.rs: the options of a socket, and the opening of one. The types and functions
-- of tokio_socketcan_isotp that this code calls are the fields of `IsoTp`.
use Prim.Native.String.{String}
use uds_rs.Base.{
  ℕ, Bool, true, false, ◌&&◌, Option, none, some, Result, ok, err, map_err, ◌>>=◌, if◌then◌else◌,
}
use uds_rs.Communication.{Error, UdsCommunicationError, from_isotp_error, IsoTpSocket, UdsSocket}

-- `W` is the state of the world, which opening a socket may change.
pub record IsoTp (W : Type 0) : Type 1 where
  pub CanId : Type 0
  pub Behaviour : Type 0
  pub IsoTpOptions : Type 0
  pub FlowControlOptions : Type 0
  pub LinkLayerOptions : Type 0
  pub OptionsError : Type 0
  pub can_isotp_rx_padding : Behaviour
  pub can_isotp_tx_padding : Behaviour
  pub set : Behaviour → Behaviour → Bool → Behaviour
  -- `contains` of bitflags, and what `set` with `true` does: it adds a flag, and takes none away.
  pub Contains : Behaviour → Behaviour → Type 0
  pub Contains-refl : (flags : Behaviour) → Contains flags flags
  pub set-Contains : (flags flag : Behaviour) → Contains (set flags flag true) flag
  pub set-keeps :
      (flags flag other : Behaviour) → Contains flags other → Contains (set flags flag true) other
  -- Flags, frame time in milliseconds, extended address, padding for sending and for receiving, and
  -- extended address for receiving.
  pub new : Behaviour → ℕ → ℕ → ℕ → ℕ → ℕ → Result IsoTpOptions OptionsError
  pub set_flags : IsoTpOptions → Behaviour → IsoTpOptions
  pub open_socket : String → CanId → CanId → W → Result (IsoTpSocket W) Error × W
  pub open_with_opts :
      String
      → CanId
      → CanId
      → Option IsoTpOptions
      → Option FlowControlOptions
      → Option LinkLayerOptions
      → W
      → Result (IsoTpSocket W) Error × W

abbrev pub is_none : {A : Type 0} → Option A → Bool
is_none none = true
is_none (some a) = false

module _ {W : Type 0} (api : IsoTp W) where
  pub record UdsSocketOptions : Type 0 where
    pub isotp_options : Option api.IsoTpOptions
    pub rx_flow_control_options : Option api.FlowControlOptions
    pub link_layer_options : Option api.LinkLayerOptions

  -- The derived `Default`.
  abbrev pub default : UdsSocketOptions
  default = record {
    isotp_options = none;
    rx_flow_control_options = none;
    link_layer_options = none;
  }

  unfoldable pub is_default : UdsSocketOptions → Bool
  is_default self =
      is_none self.isotp_options
      && is_none self.rx_flow_control_options
      && is_none self.link_layer_options

  -- The flags for padding in both directions.
  abbrev pub padding_flags : api.Behaviour
  padding_flags = api.set api.can_isotp_rx_padding api.can_isotp_tx_padding true

  unfoldable pub vw : Result UdsSocketOptions UdsCommunicationError
  vw =
      map_err (λ _. UdsCommunicationError.socket_creation_error)
        (api.new padding_flags 1000 255 0x55 0xAA 255)
      >>= λ isotp_options. ok (record {
        isotp_options = some (api.set_flags isotp_options padding_flags);
        rx_flow_control_options = none;
        link_layer_options = none;
      })

  -- `?` on what opening gives, and the struct around the socket.
  abbrev pub wrap_socket :
      Result (IsoTpSocket W) Error × W → Result (UdsSocket W) UdsCommunicationError × W
  wrap_socket (ok socket, w) = (ok (record { isotp_socket = socket }), w)
  wrap_socket (err e, w) = (err (from_isotp_error e), w)

  -- `UdsSocket::new`
  unfoldable pub new_socket :
      String
      → api.CanId
      → api.CanId
      → UdsSocketOptions
      → W
      → Result (UdsSocket W) UdsCommunicationError × W
  unfolding is_default
  new_socket ifname src dst options w =
      if is_default options
      then wrap_socket (api.open_socket ifname src dst w)
      else wrap_socket (
          api.open_with_opts ifname src dst options.isotp_options options.rx_flow_control_options
            options.link_layer_options w)
