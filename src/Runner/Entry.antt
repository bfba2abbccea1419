-- ===== src/Runner/Entry.antt =====
-- `main`, `run_local` and `run_remote` of ci-runner/src/main.rs: a runner of one goodfile, or one that
-- asks the driver for job after job.
pub mod Paced
use Prim.Native.String.{◌++◌ as append}
use build_o_tron.Base.{
  ℕ, zero, suc, String, Bool, true, false, Option, none, some, List, [], ◌∷◌, Outcome, ok, err,
  panic, ◌==◌, if◌then◌else◌, ends_with, contains, trim,
}
use build_o_tron.Core.Protocol.{ClientProto, HostInfo, RequestedJob, new_task_please}
use build_o_tron.Runner.Work.{
  Received, Found, work, hung_up, protocol_error, greeted, wait_for_work,
}

pub data Mode : Type 0 where
  local remote : String → Mode

abbrev config_path_of : Option String → String
config_path_of none = "./runner_config.json"
config_path_of (some path) = path

-- `main`, for the first argument.
unfoldable pub mode_of : Option String → Mode
mode_of arg =
    if ends_with "goodfile" (config_path_of arg)
    then Mode.local (config_path_of arg)
    else Mode.remote (config_path_of arg)

-- What `run_local` finds around a goodfile: its directory, if it has one; whether it holds a `.git`;
-- and what `git log` prints of the last commit, as text.
pub record Around : Type 0 where
  pub parent : Option String
  pub has_git : String → Bool
  pub git_log : String → Outcome String

abbrev logged : String → Outcome String → Outcome RequestedJob
logged repo (ok out) = ok (record { commit = trim out; remote_url = repo; build_token = "n/a" })
logged repo (err e) = panic "git log completes"
logged repo (panic e) = panic e

abbrev job_in : Around → Option String → Outcome RequestedJob
job_in a none = panic "goodfile has a parent directory"
job_in a (some repo) =
    if a.has_git (append repo "/.git")
    then logged repo (a.git_log repo)
    else panic
        (append (append "found goodfile parent directory '" repo) "', but it is not a git repo")

-- The job that `run_local` makes, before `RunningJob::local_from_job` runs it.
unfoldable pub local_job : Around → Outcome RequestedJob
local_job a = job_in a a.parent

pub record RunnerConfig : Type 0 where
  pub server_address : String
  pub auth_secret : String
  pub allowed_pushers : Option (List String)

-- What a turn of `run_remote` sends: the header that authorizes it, and the request for a task.
unfoldable pub job_request : RunnerConfig → HostInfo → String × ClientProto
job_request config host = (trim config.auth_secret, new_task_please config.allowed_pushers host)

-- What comes of the request: an error's text, or a response with its status, its first chunk, what
-- is received after it, and whether each answer to a ping arrives.
pub data Answer : Type 0 where
  unreachable : String → Answer
  responded : ℕ → Option String → List Received → List Bool → Answer

-- What a turn does: the job that it runs, if it gets one, and how long it sleeps after that, in ms.
pub record Turn : Type 0 where
  pub ran : Option RequestedJob
  pub sleep_ms : ℕ

abbrev after_wait : Found → Turn
after_wait (work job) = record { ran = some job; sleep_ms = 10000 }
after_wait hung_up = record { ran = none; sleep_ms = 2000 }
after_wait (protocol_error e) = record { ran = none; sleep_ms = 10000 }

-- One turn of the loop of `run_remote`.
unfoldable pub turn : Answer → Turn
unfolding greeted wait_for_work
turn (responded status hello received sends) =
    if greeted status hello
    then after_wait (wait_for_work received sends 0).0
    else record { ran = none; sleep_ms = 10000 }
turn (unreachable message) =
    if contains "tcp connect error" message
    then record { ran = none; sleep_ms = 5000 }
    else record { ran = none; sleep_ms = 1000 }

-- The loop, over the answers that come: the jobs that are run, and the time slept.
unfoldable pub run_remote : List Answer → List Turn
unfolding turn
run_remote [] = []
run_remote (a ∷ later) = turn a ∷ run_remote later
