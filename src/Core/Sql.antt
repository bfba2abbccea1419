-- ===== src/Core/Sql.antt =====
-- ci-lib-core/src/sql.rs: the records that the queries return, and the numbers that the database
-- holds for their enums. A `u64`, `u32` or `u8` field is a natural number.
pub mod Codes
use Prim.Native.String.{◌++◌}
use build_o_tron.Base.{ℕ, zero, suc, String, Option, Bool, true, false, Outcome, ok, err, decimal}

pub data TokenValidity : Type 0 where
  expired invalid valid : TokenValidity

pub record PendingRun : Type 0 where
  pub id : ℕ
  pub job_id : ℕ
  pub create_time : ℕ

pub record MetricRecord : Type 0 where
  pub id : ℕ
  pub run_id : ℕ
  pub name : String
  pub value : String

pub record ArtifactRecord : Type 0 where
  pub id : ℕ
  pub run_id : ℕ
  pub name : String
  pub desc : String
  pub created_time : ℕ
  pub completed_time : Option ℕ

pub record Repo : Type 0 where
  pub id : ℕ
  pub name : String
  pub default_run_preference : Option String

pub record Remote : Type 0 where
  pub id : ℕ
  pub repo_id : ℕ
  pub remote_path : String
  pub remote_api : String
  pub remote_url : String
  pub remote_git_url : String
  pub notifier_config_path : String

pub record Job : Type 0 where
  pub id : ℕ
  pub remote_id : ℕ
  pub commit_id : ℕ
  pub created_time : ℕ
  pub source : Option String
  pub run_preferences : Option String

pub data RunState : Type 0 where
  pending started finished error invalid : RunState

-- `state as u64`
unfoldable pub run_state_code : RunState → ℕ
run_state_code RunState.pending = 0
run_state_code RunState.started = 1
run_state_code RunState.finished = 2
run_state_code RunState.error = 3
run_state_code RunState.invalid = 4

-- `RunState::try_from`
unfoldable pub run_state_of : ℕ → Outcome RunState
run_state_of zero = ok RunState.pending
run_state_of (suc zero) = ok RunState.started
run_state_of (suc (suc zero)) = ok RunState.finished
run_state_of (suc (suc (suc zero))) = ok RunState.error
run_state_of (suc (suc (suc (suc zero)))) = ok RunState.invalid
run_state_of other = err ("invalid job state: " ++ decimal other)

pub record Run : Type 0 where
  pub id : ℕ
  pub job_id : ℕ
  pub artifacts_path : Option String
  pub state : RunState
  pub host_id : Option ℕ
  pub create_time : ℕ
  pub start_time : Option ℕ
  pub complete_time : Option ℕ
  pub build_token : Option String
  pub run_timeout : Option ℕ
  pub build_result : Option ℕ
  pub final_text : Option String

unfoldable pub into_pending_run : Run → PendingRun
into_pending_run r = record { id = r.id; job_id = r.job_id; create_time = r.create_time }

pub data JobResult : Type 0 where
  pass fail : JobResult

-- `build_result as u8`
abbrev pub job_result_code : JobResult → ℕ
job_result_code JobResult.pass = 0
job_result_code JobResult.fail = 1

pub data NameState : Type 0 where
  fresh stale short_sha : NameState

unfoldable pub name_state_code : NameState → ℕ
name_state_code NameState.fresh = 0
name_state_code NameState.stale = 1
name_state_code NameState.short_sha = 2

-- `NameState::try_from`
unfoldable pub name_state_of : ℕ → Outcome NameState
name_state_of zero = ok NameState.fresh
name_state_of (suc zero) = ok NameState.stale
name_state_of (suc (suc zero)) = ok NameState.short_sha
name_state_of other = err ("invalid name state: " ++ decimal other)

pub record CommitName : Type 0 where
  pub name : String
  pub state : NameState

abbrev pub not_fresh : NameState → Bool
not_fresh NameState.fresh = false
not_fresh NameState.stale = true
not_fresh NameState.short_sha = true

-- `CommitName::stale`
abbrev pub is_stale : CommitName → Bool
is_stale c = not_fresh c.state

abbrev pub named : NameState → String → String
named NameState.fresh name = name
named NameState.stale name = name ++ " (stale)"
named NameState.short_sha name = name

-- `CommitName::stringy`
unfoldable pub stringy : CommitName → String
stringy c = named c.state c.name
