-- ===== src/Runner/Work.antt =====
-- `RemoteServerRunner::new` and `wait_for_work` of ci-runner/src/main.rs: the runner's side of the
-- conversation with the driver.
pub mod Pings
use Prim.Native.String.{◌++◌ as append}
use build_o_tron.Base.{
  ℕ, String, Bool, true, false, Option, none, some, List, [], ◌∷◌, ◌==◌, ◌=?◌, if◌then◌else◌,
}
use build_o_tron.Core.Protocol.{ClientProto, RequestedJob, new_task, ping}

-- What a turn of the response's stream gives: a message, bytes that are none, or an error.
pub data Received : Type 0 where
  message : ClientProto → Received
  garbled : String → Received
  broken : String → Received

-- How `wait_for_work` ends: `Ok(Some(…))`, `Ok(None)`, or `Err(WorkAcquireError::Protocol(…))`.
pub data Found : Type 0 where
  work : RequestedJob → Found
  hung_up : Found
  protocol_error : String → Found

-- `RemoteServerRunner::new`: the response is 200 and its first chunk is "hello".
unfoldable pub greeted : ℕ → Option String → Bool
greeted status none = false
greeted status (some hello) = if status == 200 then hello =? "hello" else false

-- The loop of `wait_for_work` over what is received, with whether each send arrives; beside the
-- result, how many times `Pong` was sent.
unfoldable pub wait_for_work : List Received → List Bool → ℕ → Found × ℕ
wait_for_work [] sends pongs = (hung_up, pongs)
wait_for_work (message (new_task job) ∷ later) sends pongs = (work job, pongs)
wait_for_work (message ping ∷ later) [] pongs = (protocol_error "failed to pong", pongs)
wait_for_work (message ping ∷ later) (false ∷ sends) pongs =
    (protocol_error "failed to pong", pongs)
wait_for_work (message ping ∷ later) (true ∷ sends) pongs = wait_for_work later sends (ℕ.suc pongs)
wait_for_work (message _ ∷ later) sends pongs = (protocol_error "unexpected message", pongs)
wait_for_work (garbled e ∷ later) sends pongs = (protocol_error (append "not json: " e), pongs)
wait_for_work (broken e ∷ later) sends pongs = (protocol_error (append "error in recv: " e), pongs)
