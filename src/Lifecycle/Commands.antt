-- ===== src/Lifecycle/Commands.antt =====
-- The commands of ci-ctl (ci-ctl/src/main.rs) pause at each taking of the lock.
use build_o_tron.Base.{ℕ, String, Option, none, some, List, [], ◌∷◌, Outcome, ok, err, panic, ◌=?◌}
use build_o_tron.Core.Sql.{Remote, Repo}
use build_o_tron.Core.DbCtx.Commits.{job_for_commit}
use build_o_tron.Core.DbCtx.Remotes.{
  remote_by_path_and_api, repo_id_by_name, new_repo, find_repo, queried,
}
use build_o_tron.Native.Notifier.{Outside, NotifierConfig, github_from_file, email_from_file}
use build_o_tron.Ctl.{
  Command, add, validate, job, list, rerun, rerun_commit, create, repo, remote, rerun_job,
  rerun_found, rerun_of_commit, preference_of, create_for, create_job, RemoteConfig, unconfigured,
  configured, rejected, remote_config, checked, check_config, full_path, add_configured,
  after_new_repo, insert_repo, add_repo_with, add_repo, add_to, add_remote_to, run_command,
}
use build_o_tron.Lifecycle.Stepwise.{
  if-Stepwise, try-Stepwise, on_ctx, Stepwise, bind-Stepwise, find-Stepwise, known-Stepwise,
  expect-Stepwise, new_run-Stepwise,
}
use build_o_tron.Lifecycle.Database.{new_job-Stepwise, new_repo-Stepwise, new_remote-Stepwise}

rerun_job-Stepwise : (now which : ℕ) → Stepwise on_ctx (rerun_job now which)
unfolding rerun_job
rerun_job-Stepwise now which =
    bind-Stepwise on_ctx _ _ (expect-Stepwise _ (new_run-Stepwise now which none))
      λ _. known-Stepwise _

rerun_found-Stepwise : (now : ℕ) (found : Option ℕ) → Stepwise on_ctx (rerun_found now found)
rerun_found-Stepwise now none = known-Stepwise _
rerun_found-Stepwise now (some job_id) =
    bind-Stepwise on_ctx _ _ (expect-Stepwise _ (new_run-Stepwise now job_id none))
      λ _. known-Stepwise _

rerun_of_commit-Stepwise :
    (now : ℕ) (commit : String) → Stepwise on_ctx (rerun_of_commit now commit)
unfolding rerun_of_commit job_for_commit
rerun_of_commit-Stepwise now commit =
    bind-Stepwise on_ctx _ _ (expect-Stepwise _ (find-Stepwise _))
      λ found. rerun_found-Stepwise now found

preference_of-Stepwise : (repo_id : ℕ) → Stepwise on_ctx (preference_of repo_id)
preference_of-Stepwise repo_id =
    bind-Stepwise on_ctx _ _ (find-Stepwise (λ db. queried (find_repo repo_id db)))
      λ (r : Repo). known-Stepwise _

create_for-Stepwise :
    (now : ℕ) (commit pusher : String) (found : Option Remote)
    → Stepwise on_ctx (create_for now commit pusher found)
create_for-Stepwise now commit pusher none = known-Stepwise _
create_for-Stepwise now commit pusher (some r) =
    bind-Stepwise on_ctx _ _ (preference_of-Stepwise r.repo_id) λ pref.
      bind-Stepwise on_ctx _ _
        (expect-Stepwise _ (new_job-Stepwise now r.id commit (some pusher) pref))
        λ (ids : ℕ × ℕ).
          bind-Stepwise on_ctx _ _ (expect-Stepwise _ (new_run-Stepwise now ids.0 none))
            λ _. known-Stepwise _

create_job-Stepwise :
    (now : ℕ) (parts : List String) (commit pusher : String)
    → Stepwise on_ctx (create_job now parts commit pusher)
unfolding create_job remote_by_path_and_api
create_job-Stepwise now [] commit pusher = known-Stepwise _
create_job-Stepwise now (kind ∷ []) commit pusher = known-Stepwise _
create_job-Stepwise now (kind ∷ path ∷ _) commit pusher =
    bind-Stepwise on_ctx _ _ (expect-Stepwise _ (find-Stepwise _))
      λ found. create_for-Stepwise now commit pusher found

module _ (o : Outside) (config_path : String) where
  checked-Stepwise : (c : Outcome NotifierConfig) → Stepwise on_ctx (checked o config_path c)
  checked-Stepwise (ok c) = known-Stepwise _
  checked-Stepwise (err e) = known-Stepwise _
  checked-Stepwise (panic e) = known-Stepwise _

  check_config-Stepwise :
      (kind path : String) → Stepwise on_ctx (check_config o config_path kind path)
  unfolding check_config
  check_config-Stepwise kind path =
      if-Stepwise (kind =? "github") (checked-Stepwise (github_from_file o path)) (
        if-Stepwise (kind =? "github-email") (checked-Stepwise (email_from_file o path))
          (known-Stepwise _))

  -- The part that `add_repo` and `add_remote_to` share.
  new_remote_checked-Stepwise :
      (repo_id : ℕ) (r kind config : String)
      → Stepwise on_ctx (add_configured o config_path repo_id (configured r kind config))
  new_remote_checked-Stepwise repo_id r kind config =
      bind-Stepwise on_ctx _ _ (check_config-Stepwise kind (full_path o config_path config)) λ _.
        bind-Stepwise on_ctx _ _ (expect-Stepwise _ (new_remote-Stepwise repo_id r kind config))
          λ _. known-Stepwise _

  add_configured-Stepwise :
      (repo_id : ℕ) (c : RemoteConfig) → Stepwise on_ctx (add_configured o config_path repo_id c)
  add_configured-Stepwise repo_id unconfigured = known-Stepwise _
  add_configured-Stepwise repo_id (rejected why) = known-Stepwise _
  add_configured-Stepwise repo_id (configured r kind config) =
      new_remote_checked-Stepwise repo_id r kind config

  after_new_repo-Stepwise :
      (c : RemoteConfig) (made : Outcome ℕ) → Stepwise on_ctx (after_new_repo o config_path c made)
  after_new_repo-Stepwise c (ok repo_id) = add_configured-Stepwise repo_id c
  after_new_repo-Stepwise c (err e) = known-Stepwise _
  after_new_repo-Stepwise c (panic e) = known-Stepwise _

  insert_repo-Stepwise :
      (name : String) (c : RemoteConfig) → Stepwise on_ctx (insert_repo o config_path name c)
  insert_repo-Stepwise name c =
      let h =
        try-Stepwise on_ctx (new_repo name) (after_new_repo o config_path c)
          (new_repo-Stepwise name) (after_new_repo-Stepwise c) in
      record { program = h.program; same = h.same }

  add_repo_with-Stepwise :
      (name : String) (c : RemoteConfig) → Stepwise on_ctx (add_repo_with o config_path name c)
  add_repo_with-Stepwise name (rejected why) = known-Stepwise _
  add_repo_with-Stepwise name (configured r kind path) =
      insert_repo-Stepwise name (configured r kind path)
  add_repo_with-Stepwise name unconfigured = insert_repo-Stepwise name unconfigured

  add_to-Stepwise :
      (r kind config : String) (found : Option ℕ)
      → Stepwise on_ctx (add_to o config_path r kind config found)
  add_to-Stepwise r kind config none = known-Stepwise _
  add_to-Stepwise r kind config (some repo_id) = new_remote_checked-Stepwise repo_id r kind config

  pub run_command-Stepwise :
      (split : String → List String) (now : ℕ) (c : Command)
      → Stepwise on_ctx (run_command o config_path split now c)
  unfolding run_command add_repo add_remote_to repo_id_by_name
  run_command-Stepwise split now (job list) =
      find-Stepwise (λ db. panic "called `Result::unwrap()` on an `Err` value")
  run_command-Stepwise split now (job (rerun which)) = rerun_job-Stepwise now which
  run_command-Stepwise split now (job (rerun_commit commit)) = rerun_of_commit-Stepwise now commit
  run_command-Stepwise split now (job (create r commit pusher)) =
      create_job-Stepwise now (split r) commit pusher
  run_command-Stepwise split now (add (repo name r kind config)) =
      add_repo_with-Stepwise name (remote_config r kind config)
  run_command-Stepwise split now (add (remote name r kind config)) =
      bind-Stepwise on_ctx _ _ (find-Stepwise _) λ found. add_to-Stepwise r kind config found
  run_command-Stepwise split now validate = known-Stepwise _
