-- ===== src/Examples/Interface.antt =====
-- An interface on which every socket is opened, or none is, for the examples.
use uds_rs.Base.{ℕ, ◌≡◌, refl, Bool, true, false, ◌&&◌, ◌||◌, ◌==◌, if◌then◌else◌, Result, ok}
use uds_rs.Communication.{Error, IsoTpSocket}
use uds_rs.Communication.Options.{IsoTp}

-- Flags, by the numbers of their bits.
abbrev pub Flags : Type 0
Flags = ℕ → Bool

abbrev pub bit : ℕ → Flags
bit n k = k == n

abbrev pub set_bits : Flags → Flags → Bool → Flags
set_bits flags flag true k = flags k || flag k
set_bits flags flag false k = flags k && (if flag k then false else true)

abbrev Covers : Flags → Flags → Type 0
Covers flags others = (k : ℕ) → others k ≡ true → flags k ≡ true

pub or-right : (a b : Bool) → b ≡ true → (a || b) ≡ true
or-right true b h = refl
or-right false b h = h

pub or-left : (a b : Bool) → a ≡ true → (a || b) ≡ true
or-left true b h = refl
or-left false b h = cc

-- Options are their flags.
abbrev pub interface : {W : Type 0} → Result (IsoTpSocket W) Error → IsoTp W
interface socket = record {
  CanId = ℕ;
  Behaviour = Flags;
  IsoTpOptions = Flags;
  FlowControlOptions = ℕ;
  LinkLayerOptions = ℕ;
  OptionsError = ℕ;
  can_isotp_rx_padding = bit 3;
  can_isotp_tx_padding = bit 2;
  set = set_bits;
  Contains = Covers;
  Contains-refl = λ flags k h. h;
  set-Contains = λ flags flag k h. or-right (flags k) (flag k) h;
  set-keeps = λ flags flag other contained k h. or-left (flags k) (flag k) (contained k h);
  new = λ flags frame_txtime ext_address txpad_content rxpad_content rx_ext_address. ok flags;
  set_flags = λ options flags. flags;
  open_socket = λ ifname src dst w. (socket, w);
  open_with_opts = λ ifname src dst isotp_options fc_options ll_options w. (socket, w);
}
