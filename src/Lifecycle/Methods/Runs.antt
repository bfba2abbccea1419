-- ===== src/Lifecycle/Methods/Runs.antt =====
-- What each method of `Method` (ci-lib-core/src/dbctx.rs, ci-driver/src/main.rs) does to the table
-- `runs`: at most one move.
use build_o_tron.Base.{Action, any, Bool-cases, Option-cases, inl, inr, ◌=?◌}
use build_o_tron.Core.Sql.{Repo}
use build_o_tron.Core.Table.{Table, by_id}
use build_o_tron.Core.Db.{Db, RunRow, CommitRow}
use build_o_tron.Core.DbCtx.Lock.{locked}
use build_o_tron.Core.DbCtx.Commits.{new_commit, add_commit, commit_sha, update_commit_name}
use build_o_tron.Core.DbCtx.Jobs.{add_job}
use build_o_tron.Core.DbCtx.Runs.{new_run, add_run, reap_task}
use build_o_tron.Core.DbCtx.Remotes.{new_repo, add_remote}
use build_o_tron.Core.DbCtx.Hosts.{
  id_for_host, find_or_add_host, insert_or_ignore_host, same_unique,
}
use build_o_tron.Core.DbCtx.Artifacts.{insert_metric, is_metric, add_artifact, finalize_artifact}
use build_o_tron.Driver.Session.{record_start, record_result}
use build_o_tron.Lifecycle.{Move, Moves, unmoved, ◌then◌, queued, started, completed, reaped}
use build_o_tron.Lifecycle.Methods.{
  Method, query, sha_of_commit, queue_run, start_run, finish_run, reap_run, make_commit, make_job,
  name_commit, put_metric, make_repo, make_remote, host_id, make_artifact, end_artifact, run_method,
  Respects, locked-Respects,
}
use build_o_tron.Core.DbCtx.Remotes.{new_remote, remote_for}

abbrev pub RunsMove : Db → Db → Type 0
RunsMove db later = Moves db.runs later.runs

pub Moves-trans : {t u v : Table RunRow} → Moves t u → Moves u v → Moves t v
Moves-trans unmoved n = n
Moves-trans (m then ms) n = m then Moves-trans ms n

one_move : {t u : Table RunRow} → Move t u → Moves t u
one_move m = m then unmoved

locked-Moves :
    {A : Type 0} (m : Action Db A)
    → ((db : Db) → RunsMove db (m db).1)
    → Respects RunsMove (locked m)
locked-Moves m h = locked-Respects RunsMove m (λ db. unmoved) h

pub run_method-Moves : {B : Type 0} (m : Method B) → Respects RunsMove (run_method m)
unfolding run_method add_run add_commit find_or_add_host insert_or_ignore_host commit_sha new_run
    record_start record_result reap_task new_commit update_commit_name insert_metric new_repo
    new_remote id_for_host add_artifact finalize_artifact
run_method-Moves (query found) = locked-Moves (λ db. (found db, db)) (λ db. unmoved)
run_method-Moves (sha_of_commit id) = locked-Moves _ λ db.
    elim (Option-cases (by_id (λ (c : CommitRow). c.id) id db.commits.rows)) [
      | inl n ↦ rw n unmoved
      | inr (c, e) ↦ rw e unmoved
    ]
run_method-Moves (queue_run now job_id host) =
    locked-Moves (add_run now job_id host) (λ db. one_move (queued now job_id host))
run_method-Moves (start_run now id host path token) =
    locked-Moves _ (λ db. one_move (started id now host path token))
run_method-Moves (finish_run now id info) = locked-Moves _ (λ db. one_move (completed id now info))
run_method-Moves (reap_run id) = locked-Moves _ (λ db. one_move (reaped id))
run_method-Moves (make_commit sha) = locked-Moves _ λ db.
    elim (Bool-cases (any (λ (c : CommitRow). c.sha =? sha) db.commits.rows)) [
      | inl y ↦ rw y unmoved
      | inr n ↦ rw n unmoved
    ]
run_method-Moves (make_job now remote_id commit_id pusher pref) =
    locked-Moves (add_job now remote_id commit_id pusher pref) (λ db. unmoved)
run_method-Moves (name_commit id name) = locked-Moves _ (λ db. unmoved)
run_method-Moves (put_metric run name value) = locked-Moves _ λ db.
    elim (Bool-cases (any (is_metric run name) db.metrics.rows)) [
      | inl y ↦ rw y unmoved
      | inr n ↦ rw n unmoved
    ]
run_method-Moves (make_repo name) = locked-Moves _ λ db.
    elim (Bool-cases (any (λ (r : Repo). r.name =? name) db.repos.rows)) [
      | inl y ↦ rw y unmoved
      | inr n ↦ rw n unmoved
    ]
run_method-Moves (make_remote repo_id r kind config) =
    elim (Option-cases (remote_for repo_id r kind config)) [
      | inl n ↦ rw n (record { made = λ ctx. unmoved })
      | inr (make, e) ↦ rw e (locked-Moves (add_remote make) (λ db. unmoved))
    ]
run_method-Moves (host_id h) = locked-Moves _ λ db.
    elim (Bool-cases (any (same_unique h) db.hosts.rows)) [
      | inl y ↦ rw y unmoved
      | inr n ↦ rw n unmoved
    ]
run_method-Moves (make_artifact now run name desc) = locked-Moves _ (λ db. unmoved)
run_method-Moves (end_artifact now id) = locked-Moves _ (λ db. unmoved)
