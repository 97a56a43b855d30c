-- ===== src/Examples/Ecu.antt =====
-- An ECU that answers from a script, for the examples.
use uds_rs.Base.{ℕ, List, [], ◌∷◌, ◌++◌, ◌≡◌, Result, ok, Option, none, some, arith}
use uds_rs.Communication.{Awaited, ready, IsoTpSocket, SocketError}
use uds_rs.Client.{Tokio, UdsClient, Received}
use uds_rs.Client.Ends.{IsLive}

-- What the ECU will answer, and what it was sent. An ECU with no answer left stays silent.
pub record Bus : Type 0 where
  pub answers : List (List ℕ)
  pub sent : List (List ℕ)

abbrev reply : List (List ℕ) → List (List ℕ) → Awaited (Result (List ℕ) SocketError) Bus
reply [] sent = Awaited.never
reply (a ∷ answers) sent = ready (ok a) (record { answers = answers; sent = sent })

abbrev pub scripted : IsoTpSocket Bus
scripted = record {
  write_packet = λ payload w. ready (ok tt) (record w { sent = w.sent ++ (payload ∷ []) });
  read_packet = λ w. reply w.answers w.sent;
}

abbrev elapse : Bus → Awaited Received Bus → Option Received × Bus
elapse w (ready r w') = (some r, w')
elapse w Awaited.never = (none, w)

pub elapse_output :
    (w w' : Bus) (r : Received) (a : Awaited Received Bus)
    → elapse w a ≡ (some r, w')
    → a ≡ ready r w'
elapse_output w w' r (ready x u) h = ground arith
elapse_output w w' r Awaited.never h = absurd (ground arith)

-- A future that completes does so in time.
abbrev pub patient : Tokio Bus
patient = record {
  timeout = λ ms f w. elapse w (f w);
  timeout_output = λ ms f w w' r h. elapse_output w w' r (f w) h;
}

abbrev pub client : UdsClient Bus
client = record { socket = record { isotp_socket = scripted } }

abbrev pub bus : List (List ℕ) → Bus
bus answers = record { answers = answers; sent = [] }

-- An ECU that answers everything with the same message.
abbrev pub constant : List ℕ → IsoTpSocket Bus
constant answer = record {
  write_packet = λ payload w. ready (ok tt) w;
  read_packet = λ w. ready (ok answer) w;
}

pub constant-IsLive : (answer : List ℕ) → IsLive (constant answer)
constant-IsLive answer = record { writes = λ payload w h. cc; reads = λ w h. cc }
