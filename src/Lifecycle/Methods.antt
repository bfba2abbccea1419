-- ===== src/Lifecycle/Methods.antt =====
-- The statements of ci-lib-core/src/dbctx.rs and of ci-driver/src/main.rs that a handler runs with the
-- lock taken: each is one method of `Method`, and between two of them other tasks may have the lock.
pub mod Runs
pub mod Schema
pub mod Growth
use build_o_tron.Base.{
  ℕ, String, Option, Outcome, Action, any, Bool-cases, Option-cases, inl, inr, ◌=?◌,
}
use build_o_tron.Core.Protocol.{HostInfo, TaskInfo}
use build_o_tron.Core.Sql.{Repo, Remote, PendingRun}
use build_o_tron.Core.Table.{Table, by_id}
use build_o_tron.Core.Db.{Db, RunRow, CommitRow}
use build_o_tron.Core.DbCtx.Lock.{DbCtx, locked}
use build_o_tron.Core.DbCtx.Commits.{new_commit, add_commit, commit_sha, update_commit_name}
use build_o_tron.Core.DbCtx.Jobs.{add_job}
use build_o_tron.Core.DbCtx.Runs.{new_run, add_run, reap_task}
use build_o_tron.Core.DbCtx.Remotes.{new_remote, new_repo, add_remote}
use build_o_tron.Core.DbCtx.Hosts.{
  id_for_host, find_or_add_host, insert_or_ignore_host, same_unique,
}
use build_o_tron.Core.DbCtx.Artifacts.{insert_metric, is_metric, add_artifact, finalize_artifact}
use build_o_tron.Driver.Session.{record_start, record_result, verdict}
use build_o_tron.Lifecycle.{Move, Moves, unmoved, ◌then◌, queued, started, completed, reaped}

-- A query only reads. The others are named after what they write.
pub data Method : Type 0 → Type 1 where
  query : {B : Type 0} → (Db → Outcome B) → Method B
  sha_of_commit : ℕ → Method String
  queue_run : ℕ → ℕ → Option ℕ → Method PendingRun
  start_run : ℕ → ℕ → ℕ → String → String → Method (Unit {0})
  finish_run : ℕ → ℕ → TaskInfo → Method (Unit {0})
  reap_run : ℕ → Method (Unit {0})
  make_commit : String → Method ℕ
  make_job : ℕ → ℕ → ℕ → Option String → Option String → Method ℕ
  name_commit : ℕ → String → Method (Unit {0})
  put_metric : ℕ → String → String → Method (Unit {0})
  make_repo : String → Method ℕ
  make_remote : ℕ → String → String → String → Method ℕ
  host_id : HostInfo → Method ℕ
  make_artifact : ℕ → ℕ → String → String → Method ℕ
  end_artifact : ℕ → ℕ → Method (Unit {0})

unfoldable pub run_method : {B : Type 0} → Method B → Action DbCtx B
unfolding commit_sha new_run record_start record_result reap_task new_commit update_commit_name
    insert_metric new_repo new_remote id_for_host add_artifact finalize_artifact
run_method (query found) = locked (λ db. (found db, db))
run_method (sha_of_commit id) = commit_sha id
run_method (queue_run now job_id host) = new_run now job_id host
run_method (start_run now id host path token) = record_start now id host path token
run_method (finish_run now id info) = record_result now id (verdict info).0 (verdict info).1
run_method (reap_run id) = reap_task id
run_method (make_commit sha) = new_commit sha
run_method (make_job now remote_id commit_id pusher pref) =
    locked (add_job now remote_id commit_id pusher pref)
run_method (name_commit id name) = update_commit_name id name
run_method (put_metric run name value) = insert_metric run name value
run_method (make_repo name) = new_repo name
run_method (make_remote repo_id r kind config) = new_remote repo_id r kind config
run_method (host_id h) = id_for_host h
run_method (make_artifact now run name desc) = add_artifact now run name desc
run_method (end_artifact now id) = finalize_artifact now id

-- However a method ends, what it did to the database is in the relation.
pub record Respects (R : Db → Db → Type 0) {A : Type 0} (m : Action DbCtx A) : Type 0 where
  pub made : (ctx : DbCtx) → R ctx.db (m ctx).1.db

pub locked-Respects :
    (R : Db → Db → Type 0) {A : Type 0} (m : Action Db A)
    → ((db : Db) → R db db)
    → ((db : Db) → R db (m db).1)
    → Respects R (locked m)
locked-Respects R m same h = record {
  made = λ ctx. elim (Bool-cases ctx.poisoned) [
    | inl p ↦ rw p (same ctx.db)
    | inr p ↦ rw p (h ctx.db)
  ];
}
