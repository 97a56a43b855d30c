-- ===== src/Client/Outcome.antt =====
-- How a call of a client's method ends.
use uds_rs.Base.{Result, ok, err, MayPanic, value, panic}
use uds_rs.Communication.{UdsCommunicationError, Awaited, ready, Awaited}
use uds_rs.Response.{UdsError, from_communication_error}

-- `never` is an await that does not complete; `exhausted` is no behaviour of the code, but a loop
-- that ran out of its fuel.
pub data Call (W A : Type 0) : Type 0 where
  done : Result A UdsError → W → Call W A
  panicked : W → Call W A
  never : Call W A
  exhausted : Call W A

-- `.await?` on a call of the communication layer.
abbrev pub await_socket :
    {W A B : Type 0} → Awaited (Result A UdsCommunicationError) W → (A → W → Call W B) → Call W B
await_socket (ready (ok a) w) k = k a w
await_socket (ready (err e) w) k = done (err (from_communication_error e)) w
await_socket Awaited.never k = never

-- `.await?` on a call of another method.
abbrev pub await_call : {W A B : Type 0} → Call W A → (A → W → Call W B) → Call W B
await_call (done (ok a) w) k = k a w
await_call (done (err e) w) k = done (err e) w
await_call (panicked w) k = panicked w
await_call never k = never
await_call exhausted k = exhausted

-- A function that may panic, as the last expression of a method.
abbrev pub return_panic : {W A : Type 0} → MayPanic (Result A UdsError) → W → Call W A
return_panic (value r) w = done r w
return_panic panic w = panicked w
