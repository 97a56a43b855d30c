-- ===== src/Communication.antt =====
-- src/uds/communication.rs: errors and the socket. The crate tokio_socketcan_isotp is a parameter:
-- an open socket is its two operations on the state `W` of the world (bus, ECU, clock).
pub mod Options
use uds_rs.Base.{ℕ, List, Result, ok, err}

-- The crate's `Error`; only its variant is read.
pub data Error : Type 0 where
  io lookup : Error

pub data UdsCommunicationError : Type 0 where
  failed_to_find_can_device socket_can_io_error std_io_error : UdsCommunicationError
  general_error not_implemented_error socket_creation_error : UdsCommunicationError

-- The two `From` impls: `?` picks one by the error's type, here by `SocketError`.
abbrev pub from_isotp_error : Error → UdsCommunicationError
from_isotp_error io = UdsCommunicationError.socket_can_io_error
from_isotp_error lookup = UdsCommunicationError.failed_to_find_can_device

pub data SocketError : Type 0 where
  isotp : Error → SocketError
  std_io : SocketError

abbrev pub from_socket_error : SocketError → UdsCommunicationError
from_socket_error (isotp e) = from_isotp_error e
from_socket_error std_io = UdsCommunicationError.std_io_error

-- An awaited future completes in some later world, or never does.
pub data Awaited (A W : Type 0) : Type 0 where
  ready : A → W → Awaited A W
  never : Awaited A W

abbrev pub map_ready : {A B W : Type 0} → (A → B) → Awaited A W → Awaited B W
map_ready f (ready a w) = ready (f a) w
map_ready f never = never

abbrev pub question_mark : {A : Type 0} → Result A SocketError → Result A UdsCommunicationError
question_mark (ok a) = ok a
question_mark (err e) = err (from_socket_error e)

pub record IsoTpSocket (W : Type 0) : Type 0 where
  pub write_packet : List ℕ → W → Awaited (Result (Unit {0}) SocketError) W
  pub read_packet : W → Awaited (Result (List ℕ) SocketError) W

pub record UdsSocket (W : Type 0) : Type 0 where
  pub isotp_socket : IsoTpSocket W

module _ {W : Type 0} (self : UdsSocket W) where
  unfoldable pub send : List ℕ → W → Awaited (Result (Unit {0}) UdsCommunicationError) W
  send payload w = map_ready question_mark (self.isotp_socket.write_packet payload w)

  unfoldable pub receive : W → Awaited (Result (List ℕ) UdsCommunicationError) W
  receive w = map_ready question_mark (self.isotp_socket.read_packet w)
