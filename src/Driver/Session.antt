-- ===== src/Driver/Session.antt =====
-- `activate_run`, `submit` and `ClientJob::run` of ci-driver/src/main.rs: a run is handed to a runner,
-- and what the runner reports is recorded.
pub mod Recorded
pub mod Started
use Prim.Native.String.{◌++◌ as append}
use build_o_tron.Base.{
  ℕ, String, Bool, true, false, Option, none, some, List, [], ◌∷◌, Outcome, ok, err, panic, Action,
  ◌>>=◌, ◌>>◌, pure, fail, expect, expect_some, gets, ◌=?◌, if◌then◌else◌, decimal,
}
use mathlib.Core.Option
use build_o_tron.Core.Protocol.{
  ClientProto, TaskInfo, new_task_please, task_status, artifact_create, metric, command,
}
use build_o_tron.Core.Sql.{Job, PendingRun, RunState, JobResult}
use build_o_tron.Core.DbCtx.Lock.{DbCtx, locked}
use build_o_tron.Core.DbCtx.Commits.{commit_sha}
use build_o_tron.Core.DbCtx.Jobs.{job_by_id}
use build_o_tron.Core.DbCtx.Remotes.{remote_by_id, repo_by_id, repo_id_by_remote}
use build_o_tron.Core.DbCtx.Runs.{update_run, set_started, set_completed}
use build_o_tron.Core.DbCtx.Artifacts.{insert_metric}
use build_o_tron.Native.Notifier.{
  Outside, RemoteNotifier, JobOutcome, success, failure, text_of, notifiers_by_repo,
  tell_complete_job,
}
use build_o_tron.Driver.Client.{RunnerClient, object_id, Chunk, received, send, offer}

-- What creating a directory gives: done, already there, or another error.
pub data CreateDir : Type 0 where
  created : CreateDir
  already_exists : CreateDir
  refused : String → CreateDir

-- A notice that a runner's job is complete, with what came of sending it.
pub record Notice : Type 0 where
  pub to : RemoteNotifier
  pub about : String
  pub told : JobOutcome
  pub delivered : Outcome (Unit {0})

-- The driver's side of one connection: the database, the keys of `ACTIVE_TASKS` (the newest first;
-- the code never removes one), the notices sent, and the runner.
pub record Session : Type 0 where
  pub ctx : DbCtx
  pub active_tasks : List ℕ
  pub notices : List Notice
  pub client : RunnerClient

abbrev pub on_db : {A : Type 0} → Action DbCtx A → Action Session A
on_db m s = let (r, ctx) = m s.ctx in (r, record s { ctx = ctx })

abbrev pub on_client : {A : Type 0} → Action RunnerClient A → Action Session A
on_client m s = let (r, c) = m s.client in (r, record s { client = c })

-- `reserve_artifacts_dir`
abbrev pub reserved : String → CreateDir → Outcome String
reserved path created = ok path
reserved path already_exists = ok path
reserved path (refused e) = err e

abbrev pub artifacts_dir : ℕ → String
artifacts_dir run = append "/root/ixi_ci_server/artifacts/" (decimal run)

unfoldable pub reserve_artifacts_dir : (String → CreateDir) → ℕ → Outcome String
reserve_artifacts_dir create_dir run = reserved (artifacts_dir run) (create_dir (artifacts_dir run))

-- `ACTIVE_TASKS.lock().unwrap().insert(job.id, …)`
abbrev mark_active : ℕ → Action Session (Unit {0})
mark_active id s = (ok tt, record s { active_tasks = id ∷ s.active_tasks })

abbrev pub mark_if : Bool → ℕ → Action Session (Unit {0})
mark_if true id = mark_active id
mark_if false id = fail "client hung up instead of acking task"

abbrev pub submit_failed : {A : Type 0} → Outcome A → Outcome A
submit_failed (ok a) = ok a
submit_failed (err e) = err (append "failed to submit task: " e)
submit_failed (panic e) = panic e

abbrev pub submitted : {A : Type 0} → Action Session A → Action Session A
submitted m s = let (r, s') = m s in (submit_failed r, s')

-- `submit`: the job is offered, and entered in `ACTIVE_TASKS` if the runner starts it.
unfoldable pub submit : PendingRun → String → String → Action Session (Unit {0})
unfolding offer
submit run url sha = do taken ← submitted (on_client (offer url sha)); mark_if taken run.id

-- The update that ends `activate_run`.
unfoldable pub record_start : ℕ → ℕ → ℕ → String → String → Action DbCtx (Unit {0})
unfolding set_started
record_start now id host_id path token =
    locked λ db. (ok tt, update_run id (set_started now host_id path token) db)

-- `activate_run`, up to the spawned `ClientJob::run`; `now` is read at the start.
unfoldable pub activate_run :
    (String → CreateDir) → ℕ → Job → PendingRun → Action Session (Unit {0})
unfolding reserve_artifacts_dir submit record_start commit_sha remote_by_id repo_by_id
activate_run create_dir now job run = do
  found ← on_db (remote_by_id job.remote_id)
  remote ← expect_some "job has remote" found
  owner ← on_db (repo_by_id remote.repo_id)
  repo ← expect_some "remote has repo" owner
  sha ← expect "query succeeds" (on_db (commit_sha job.commit_id))
  path ←
      expect "can reserve a directory for artifacts"
        (λ s. (reserve_artifacts_dir create_dir run.id, s))
  submit run remote.remote_git_url sha
  client ← gets (λ s. s.client)
  on_db (record_start now run.id client.host_id path client.build_token)

-- The `match task_info` of `ClientJob::run`: what is told, and the state that is recorded.
unfoldable pub verdict : TaskInfo → JobOutcome × RunState
verdict (TaskInfo.finished status) =
    if status =? "pass"
    then (success "success", RunState.finished)
    else (failure status, RunState.error)
verdict (TaskInfo.interrupted status description) =
    (failure (Option.get_or description status), RunState.error)

-- `if result.is_ok() { JobResult::Pass } else { JobResult::Fail }`
abbrev pub result_of : JobOutcome → JobResult
result_of (success _) = JobResult.pass
result_of (failure _) = JobResult.fail

unfoldable pub record_result : ℕ → ℕ → JobOutcome → RunState → Action DbCtx (Unit {0})
unfolding set_completed
record_result now id result state =
    locked
      λ db. (ok tt, update_run id (set_completed now state (result_of result) (text_of result)) db)

-- What one connection serves: the commit and the run; `config_path` is the driver's.
pub record ClientJob : Type 0 where
  pub sha : String
  pub task : PendingRun
  pub config_path : String

module _ (o : Outside) (job : ClientJob) where
  -- A notice that fails is logged and dropped; one that panics ends the task.
  abbrev pub keep_going : Outcome (Unit {0}) → Outcome (Unit {0})
  keep_going (ok u) = ok u
  keep_going (err e) = ok tt
  keep_going (panic e) = panic e

  abbrev pub notify : JobOutcome → RemoteNotifier → Action Session (Unit {0})
  notify result n s =
      let sent = tell_complete_job o n job.sha result in
      (
        keep_going sent,
        record s {
          notices = record { to = n; about = job.sha; told = result; delivered = sent } ∷ s.notices;
        },
      )

  unfoldable pub notify_all : JobOutcome → List RemoteNotifier → Action Session (Unit {0})
  notify_all result [] = pure tt
  notify_all result (n ∷ ns) = do notify result n; notify_all result ns

  -- The arm `ClientProto::TaskStatus`; `now` is read after the notices.
  unfoldable pub complete : ℕ → TaskInfo → Action Session (Unit {0})
  unfolding verdict record_result notify_all job_by_id repo_id_by_remote notifiers_by_repo
  complete now info =
      let (result, state) = verdict info in
      do
        row ← on_db (job_by_id job.task.job_id)
        found ← expect_some "job exists" row
        repo ← on_db (repo_id_by_remote found.remote_id)
        repo_id ← expect_some "remote exists" repo
        notifiers ← expect "can get notifiers" (on_db (notifiers_by_repo o job.config_path repo_id))
        notify_all result notifiers
        on_db (record_result now job.task.id result state)

  -- One message: whether the loop goes on.
  unfoldable pub handle : ℕ → ClientProto → Action Session Bool
  unfolding complete send insert_metric
  handle now (new_task_please _ _) = pure false
  handle now (task_status info) = do complete now info; pure true
  handle now artifact_create = do
    expect "called `Result::unwrap()` on an `Err` value" (on_client (send (object_id "10")))
    pure true
  handle now (metric name value) = do
    expect "TODO handle metric insert error?" (on_db (insert_metric job.task.id name value))
    pure true
  handle now (command _) = pure true
  handle now _ = pure true

  abbrev pub proceed : Bool → Action Session (Unit {0}) → Action Session (Unit {0})
  proceed true rest = rest
  proceed false rest = pure tt

  abbrev heard : Chunk → Action Session (Option ClientProto)
  heard x s = (received x, s)

  abbrev pub respond :
      ℕ → Action Session (Unit {0}) → Option ClientProto → Action Session (Unit {0})
  respond now rest none = pure tt
  respond now rest (some m) = do go_on ← handle now m; proceed go_on rest

  -- `ClientJob::run` over what the runner sends, with the clock at each message. It ends when the
  -- runner hangs up, by a misdirected request, or by a panic.
  unfoldable pub serve : List (ℕ × Chunk) → Action Session (Unit {0})
  unfolding handle
  serve [] = pure tt
  serve ((now, x) ∷ later) =
      let rest = serve later in do m ← expect "recv works" (heard x); respond now rest m
