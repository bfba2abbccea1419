-- ===== src/Lifecycle/Database.antt =====
-- The methods of ci-lib-core/src/dbctx.rs that the handlers call pause at each taking of the lock.
use build_o_tron.Base.{ℕ, String, Option}
use build_o_tron.Core.Protocol.{HostInfo}
use build_o_tron.Core.DbCtx.Commits.{new_commit, commit_sha, update_commit_name}
use build_o_tron.Core.DbCtx.Jobs.{new_job, jobs_needing_task_runs_for_host}
use build_o_tron.Core.DbCtx.Runs.{reap_task}
use build_o_tron.Core.DbCtx.Remotes.{new_repo, new_remote, remotes_by_repo}
use build_o_tron.Core.DbCtx.Hosts.{id_for_host}
use build_o_tron.Core.DbCtx.Artifacts.{insert_metric, add_artifact, finalize_artifact}
use build_o_tron.Native.Notifier.{Outside, notifiers_by_repo}
use build_o_tron.Lifecycle.Methods.{
  run_method, sha_of_commit, put_metric, make_commit, make_job, name_commit, make_repo, make_remote,
  host_id, make_artifact, end_artifact, reap_run,
}
use build_o_tron.Lifecycle.Stepwise.{
  on_ctx, Stepwise, bind-Stepwise, method-Stepwise, find-Stepwise, known-Stepwise, expect-Stepwise,
}

pub commit_sha-Stepwise : (id : ℕ) → Stepwise on_ctx (commit_sha id)
unfolding run_method
commit_sha-Stepwise id = method-Stepwise (sha_of_commit id)

pub insert_metric-Stepwise :
    (run : ℕ) (name value : String) → Stepwise on_ctx (insert_metric run name value)
unfolding run_method
insert_metric-Stepwise run name value = method-Stepwise (put_metric run name value)

new_commit-Stepwise : (sha : String) → Stepwise on_ctx (new_commit sha)
unfolding run_method
new_commit-Stepwise sha = method-Stepwise (make_commit sha)

pub update_commit_name-Stepwise :
    (commit_id : ℕ) (name : String) → Stepwise on_ctx (update_commit_name commit_id name)
unfolding run_method
update_commit_name-Stepwise commit_id name = method-Stepwise (name_commit commit_id name)

pub new_job-Stepwise :
    (now remote_id : ℕ) (sha : String) (pusher pref : Option String)
    → Stepwise on_ctx (new_job now remote_id sha pusher pref)
unfolding new_job run_method
new_job-Stepwise now remote_id sha pusher pref =
    bind-Stepwise on_ctx _ _ (expect-Stepwise _ (new_commit-Stepwise sha)) λ (commit_id : ℕ).
      bind-Stepwise on_ctx _ _ (method-Stepwise (make_job now remote_id commit_id pusher pref))
        λ job_id. known-Stepwise _

pub new_repo-Stepwise : (name : String) → Stepwise on_ctx (new_repo name)
unfolding run_method
new_repo-Stepwise name = method-Stepwise (make_repo name)

pub new_remote-Stepwise :
    (repo_id : ℕ) (r kind config : String) → Stepwise on_ctx (new_remote repo_id r kind config)
unfolding run_method
new_remote-Stepwise repo_id r kind config = method-Stepwise (make_remote repo_id r kind config)

pub id_for_host-Stepwise : (h : HostInfo) → Stepwise on_ctx (id_for_host h)
unfolding run_method
id_for_host-Stepwise h = method-Stepwise (host_id h)

pub add_artifact-Stepwise :
    (now run : ℕ) (name desc : String) → Stepwise on_ctx (add_artifact now run name desc)
unfolding run_method
add_artifact-Stepwise now run name desc = method-Stepwise (make_artifact now run name desc)

pub finalize_artifact-Stepwise : (now id : ℕ) → Stepwise on_ctx (finalize_artifact now id)
unfolding run_method
finalize_artifact-Stepwise now id = method-Stepwise (end_artifact now id)

pub jobs_needing-Stepwise :
    (now host : ℕ) → Stepwise on_ctx (jobs_needing_task_runs_for_host now host)
unfolding jobs_needing_task_runs_for_host
jobs_needing-Stepwise now host =
    bind-Stepwise on_ctx _ _ (known-Stepwise _) λ cutoff. find-Stepwise _

pub reap_task-Stepwise : (id : ℕ) → Stepwise on_ctx (reap_task id)
unfolding run_method
reap_task-Stepwise id = method-Stepwise (reap_run id)

pub notifiers_by_repo-Stepwise :
    (o : Outside) (config_path : String) (repo_id : ℕ)
    → Stepwise on_ctx (notifiers_by_repo o config_path repo_id)
unfolding notifiers_by_repo remotes_by_repo
notifiers_by_repo-Stepwise o config_path repo_id =
    bind-Stepwise on_ctx _ _ (find-Stepwise _) λ remotes. known-Stepwise _
