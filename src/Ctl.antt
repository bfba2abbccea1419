-- ===== src/Ctl.antt =====
-- ci-ctl/src/main.rs: the commands that put jobs, runs, repos and remotes into the database.
pub mod Rerun
pub mod Webhook
use Prim.Native.String.{◌++◌ as append}
use build_o_tron.Base.{
  ℕ, zero, suc, String, Bool, true, false, Option, none, some, List, [], ◌∷◌, Outcome, ok, err,
  panic, Action, ◌>>=◌, ◌>>◌, pure, abort, expect, expect_some, ◌=?◌, if◌then◌else◌,
}
use build_o_tron.Core.Sql.{Remote}
use build_o_tron.Core.DbCtx.Lock.{DbCtx, locked}
use build_o_tron.Core.DbCtx.Commits.{job_for_commit}
use build_o_tron.Core.DbCtx.Jobs.{new_job}
use build_o_tron.Core.DbCtx.Runs.{new_run}
use build_o_tron.Core.DbCtx.Remotes.{
  new_repo, new_remote, repo_id_by_name, remote_by_path_and_api, queried_repo,
}
use build_o_tron.Native.Notifier.{
  Outside, NotifierConfig, git_hub, email, github_from_file, email_from_file,
}

pub data JobAction : Type 0 where
  list : JobAction
  rerun : ℕ → JobAction
  rerun_commit : String → JobAction
  create : String → String → String → JobAction

pub data AddItem : Type 0 where
  repo : String → Option String → Option String → Option String → AddItem
  remote : String → String → String → String → AddItem

pub data Command : Type 0 where
  add : AddItem → Command
  validate : Command
  job : JobAction → Command

-- How a command ends that does not panic: it did what it was asked, or it says why not.
pub data Done : Type 0 where
  done : Done
  declined : String → Done

-- The arm `Rerun`: the number is taken for a job's id as it is.
unfoldable pub rerun_job : ℕ → ℕ → Action DbCtx Done
unfolding new_run
rerun_job now which = do expect "db can be queried" (new_run now which none); pure done

abbrev pub rerun_found : ℕ → Option ℕ → Action DbCtx Done
rerun_found now none = pure (declined "no job for commit")
rerun_found now (some job_id) = do expect "db can be queried" (new_run now job_id none); pure done

-- The arm `RerunCommit`.
unfoldable pub rerun_of_commit : ℕ → String → Action DbCtx Done
unfolding job_for_commit new_run
rerun_of_commit now commit = do
  job_id ← expect "called `Result::unwrap()` on an `Err` value" (job_for_commit commit)
  rerun_found now job_id

-- `default_run_preference` of the remote's repo.
abbrev pub preference_of : ℕ → Action DbCtx (Option String)
preference_of repo_id = do r ← queried_repo repo_id; pure r.default_run_preference

abbrev pub create_for : ℕ → String → String → Option Remote → Action DbCtx Done
create_for now commit pusher none = pure (declined "no remote registered")
create_for now commit pusher (some r) = do
  pref ← preference_of r.repo_id
  (job_id, commit_id) ← expect "can create" (new_job now r.id commit (some pusher) pref)
  expect "called `Result::unwrap()` on an `Err` value" (new_run now job_id none)
  pure done

-- The arm `Create`, over the parts of `repo` between its colons; `parts[0]` and `parts[1]` panic
-- where there are fewer.
unfoldable pub create_job : ℕ → List String → String → String → Action DbCtx Done
unfolding new_job new_run remote_by_path_and_api
create_job now [] commit pusher = abort "index out of bounds"
create_job now (kind ∷ []) commit pusher = abort "index out of bounds"
create_job now (kind ∷ path ∷ _) commit pusher = do
  found ← expect "can query" (remote_by_path_and_api kind path)
  create_for now commit pusher found

-- The three options of `Add Repo`: all or none of them.
pub data RemoteConfig : Type 0 where
  unconfigured : RemoteConfig
  configured : String → String → String → RemoteConfig
  rejected : String → RemoteConfig

unfoldable pub remote_config : Option String → Option String → Option String → RemoteConfig
remote_config (some r) (some kind) (some path) =
    if kind =? "github" then configured r kind path else rejected (append "unknown remote kind: " r)
remote_config none none none = unconfigured
remote_config _ _ _ = rejected "must either all be provided together or not at all"

module _ (o : Outside) (config_path : String) where
  abbrev pub full_path : String → String
  full_path config = append (append config_path "/") config

  abbrev pub checked : Outcome NotifierConfig → Action DbCtx (Unit {0})
  checked (ok c) = pure tt
  checked (err e) = abort e
  checked (panic e) = abort e

  -- The `match remote_kind` that loads the notifier's config, and panics if it is not there.
  unfoldable pub check_config : String → String → Action DbCtx (Unit {0})
  unfolding github_from_file email_from_file
  check_config kind path =
      if kind =? "github"
      then checked (github_from_file o path)
      else if kind =? "github-email"
      then checked (email_from_file o path)
      else abort (append "notifiers are not supported for remotes of kind " kind)

  -- What follows the new repo; the webhook at GitHub is not part of the database's state.
  abbrev pub add_configured : ℕ → RemoteConfig → Action DbCtx Done
  add_configured repo_id unconfigured = pure done
  add_configured repo_id (rejected why) = pure (declined why)
  add_configured repo_id (configured r kind config) = do
    check_config kind (full_path config)
    expect "called `Result::unwrap()` on an `Err` value" (new_remote repo_id r kind config)
    pure done

  abbrev pub after_new_repo : RemoteConfig → Outcome ℕ → Action DbCtx Done
  after_new_repo config (ok repo_id) = add_configured repo_id config
  after_new_repo config (err e) = pure (declined e)
  after_new_repo config (panic e) = abort e

  abbrev pub insert_repo : String → RemoteConfig → Action DbCtx Done
  insert_repo name config ctx = let (r, ctx') = new_repo name ctx in after_new_repo config r ctx'

  abbrev pub add_repo_with : String → RemoteConfig → Action DbCtx Done
  add_repo_with name (rejected why) = pure (declined why)
  add_repo_with name (configured r kind path) = insert_repo name (configured r kind path)
  add_repo_with name unconfigured = insert_repo name unconfigured

  -- The arm `Add Repo`: the options are judged before anything is written.
  unfoldable pub add_repo :
      String → Option String → Option String → Option String → Action DbCtx Done
  unfolding remote_config check_config new_repo new_remote
  add_repo name r kind config = add_repo_with name (remote_config r kind config)

  abbrev pub add_to : String → String → String → Option ℕ → Action DbCtx Done
  add_to r kind config none = pure (declined "repo does not exist")
  add_to r kind config (some repo_id) = do
    check_config kind (full_path config)
    expect "called `Result::unwrap()` on an `Err` value" (new_remote repo_id r kind config)
    pure done

  -- The arm `Add Remote`.
  unfoldable pub add_remote_to : String → String → String → String → Action DbCtx Done
  unfolding check_config new_remote repo_id_by_name
  add_remote_to repo_name r kind config = do
    found ← repo_id_by_name repo_name
    add_to r kind config found

  -- `conn.prepare(…).unwrap()` on a statement that SQLite refuses.
  abbrev no_statement : Action DbCtx Done
  no_statement = locked λ db. (panic "called `Result::unwrap()` on an `Err` value", db)

  -- `main`, over the parsed command; `split` is `str::split(":")`. `Job List`
  -- prepares SELECT_ALL_RUNS_WITH_JOB_INFO, which is no valid statement ('oder by'), with the lock held.
  unfoldable pub run_command : (String → List String) → ℕ → Command → Action DbCtx Done
  unfolding rerun_job rerun_of_commit create_job add_repo add_remote_to
  run_command split now (job list) = no_statement
  run_command split now (job (rerun which)) = rerun_job now which
  run_command split now (job (rerun_commit commit)) = rerun_of_commit now commit
  run_command split now (job (create r commit pusher)) = create_job now (split r) commit pusher
  run_command split now (add (repo name r kind config)) = add_repo name r kind config
  run_command split now (add (remote name r kind config)) = add_remote_to name r kind config
  run_command split now validate = pure done
