-- ===== src/Runner/Remote.antt =====
-- The trait `Runner` of ci-runner/src/main.rs, with its implementations for a goodfile that is run
-- here (`LocalRunner`) and for a job of the driver (`RemoteServerRunner`).
pub mod Admitted
use Prim.Native.String.{◌++◌ as append}
use build_o_tron.Base.{
  ℕ, String, Bool, true, false, Option, none, some, List, [], ◌∷◌, ◌++◌, Outcome, ok, err, panic,
  Action, pure, ◌==◌, if◌then◌else◌, replace, decimal,
}
use build_o_tron.Core.Protocol.{
  ClientProto, CommandInfo, TaskInfo, RequestedJob, metric, command, task_status,
}
use build_o_tron.Native.Notifier.{and_then}
use build_o_tron.Driver.Api.{ArtifactRequest}
use build_o_tron.Base.Header.{Header}

-- What a job needs of the one who asked for it. An artifact is made of a name, a description and the
-- job's token, and gives a place to write to.
pub record Runner (S W : Type 0) : Type 0 where
  pub report_start : Action S (Unit {0})
  pub report_task_status : TaskInfo → Action S (Unit {0})
  pub report_command_info : CommandInfo → Action S (Unit {0})
  pub send_metric : String → String → Action S (Unit {0})
  pub create_artifact : String → String → String → Action S W

-- What a local runner prints.
pub data Line : Type 0 where
  starting : Line
  status_line : TaskInfo → Line
  command_line : CommandInfo → Line
  metric_line : String → String → Line

pub record LocalRunner : Type 0 where
  pub working_dir : String
  pub printed : List Line

abbrev print : Line → Action LocalRunner (Unit {0})
print l r = (ok tt, record r { printed = r.printed ++ (l ∷ []) })

-- The file of a local artifact: the name's separators are replaced.
unfoldable pub local_artifact_path : String → String → String
local_artifact_path working_dir name =
    append (append working_dir "/") (replace "\\" "_" (replace "/" "_" name))

abbrev could_open : {W : Type 0} → String → Outcome W → Outcome W
could_open name (ok w) = ok w
could_open name (err e) =
    err (append (append (append "error opening file to store artifact " name) ": ") e)
could_open name (panic e) = panic e

-- `impl Runner for LocalRunner`, with the opening of a file.
unfoldable pub local_runner : {W : Type 0} → (String → Outcome W) → Runner LocalRunner W
unfolding local_artifact_path
local_runner open_file = record {
  report_start = print starting;
  report_task_status = λ status. print (status_line status);
  report_command_info = λ info. print (command_line info);
  send_metric = λ name value. print (metric_line name value);
  create_artifact = λ name desc token r.
      (could_open name (open_file (local_artifact_path r.working_dir name)), r);
}

-- `tx`: what was sent, and for each send to come whether it arrives.
pub record RemoteServerRunner : Type 0 where
  pub sent : List ClientProto
  pub arrives : List Bool

abbrev send_to :
    ClientProto → RemoteServerRunner → List Bool → Outcome (Unit {0}) × RemoteServerRunner
send_to m r [] = (err "send error: channel closed", r)
send_to m r (true ∷ later) = (ok tt, record { sent = r.sent ++ (m ∷ []); arrives = later })
send_to m r (false ∷ later) = (err "send error: channel closed", record r { arrives = later })

-- `send_typed`
unfoldable pub send_typed : ClientProto → Action RemoteServerRunner (Unit {0})
send_typed m r = send_to m r r.arrives

abbrev failed_to : String → Outcome (Unit {0}) → Outcome (Unit {0})
failed_to what (ok u) = ok u
failed_to what (err e) = err (append (append (append "failed to " what) ": ") e)
failed_to what (panic e) = panic e

abbrev or_failed_to :
    String → Action RemoteServerRunner (Unit {0}) → Action RemoteServerRunner (Unit {0})
or_failed_to what m r = let (x, r') = m r in (failed_to what x, r')

-- What is used of the crate `http`: a text as a header's value, which may be refused, with what
-- `to_str()` gives for it.
abbrev pub AsHeader : Type 0
AsHeader = String → Outcome Header

-- The headers of the request for an artifact. A text that is no header's value fails the request.
unfoldable pub artifact_request : AsHeader → String → String → String → Outcome ArtifactRequest
artifact_request as_header name desc build_token = and_then (as_header build_token) λ token.
    and_then (as_header name) λ called. and_then (as_header desc) λ described. ok (record {
      task_token = some token;
      artifact_name = some called;
      artifact_desc = some described;
    })

-- What the driver's status code makes of an artifact; the stream is the request's own body.
abbrev pub stream_of : {W : Type 0} → W → Outcome ℕ → Outcome W
stream_of stream (ok status) =
    if status == 200
    then ok stream
    else err (append "[-] unable to create artifact: " (decimal status))
stream_of stream (err e) = err (append "unable to send request: " e)
stream_of stream (panic e) = panic e

-- `impl Runner for RemoteServerRunner`, with the sending of a request for an artifact.
unfoldable pub remote_runner :
    {W : Type 0} → AsHeader → (ArtifactRequest → Outcome ℕ) → W → Runner RemoteServerRunner W
unfolding send_typed artifact_request
remote_runner as_header post stream = record {
  report_start = send_typed ClientProto.started;
  report_task_status = λ status. send_typed (task_status status);
  report_command_info = λ info. or_failed_to "report command info" (send_typed (command info));
  send_metric =
      λ name value. or_failed_to (append "send metric " name) (send_typed (metric name value));
  create_artifact = λ name desc token r.
      (stream_of stream (and_then (artifact_request as_header name desc token) post), r);
}

-- `RunningJob::local_from_job`: a working directory that is there is removed. `clear_dir` removes it
-- with all that it holds, and `create_dir` makes it again.
unfoldable pub local_from_job :
    Bool
    → Outcome (Unit {0})
    → Outcome (Unit {0})
    → RequestedJob
    → Outcome (RequestedJob × LocalRunner)
local_from_job there clear_dir create_dir job = elim (if there then clear_dir else ok tt) [
  | ok u ↦ elim create_dir [
    | ok v ↦ ok (job, record { working_dir = "ci_working_dir"; printed = [] })
    | err e ↦ panic "can create artifacts working dir"
    | panic e ↦ panic e
  ]
  | err e ↦ panic "called `Result::unwrap()` on an `Err` value"
  | panic e ↦ panic e
]
