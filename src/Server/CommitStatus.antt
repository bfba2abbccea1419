-- ===== src/Server/CommitStatus.antt =====
-- `handle_commit_status` of ci-web-server/src/main.rs, as far as it decides what to show: which
-- commit is meant, what its state is called, and which artifacts are shown in full.
pub mod Badge
pub mod Sought
use Prim.Native.String.{◌++◌ as append, len}
use mathlib.Core.Option
use build_o_tron.Base.{
  ℕ, zero, suc, ◌-◌, String, Bool, true, false, ◌&&◌, ◌||◌, not, Option, none, some, List, [], ◌∷◌,
  Outcome, ok, err, panic, Action, ◌>>=◌, ◌>>◌, pure, expect, expect_some, first?, select, max, ltb,
  leb, ◌==◌, if◌then◌else◌,
}
use build_o_tron.Core.Sql.{Run, RunState, Job, Remote, ArtifactRecord, CommitName}
use build_o_tron.Core.Db.{Db, CommitRow}
use build_o_tron.Core.DbCtx.Lock.{DbCtx, locked}
use build_o_tron.Core.DbCtx.Commits.{nice_name_for_commit}
use build_o_tron.Core.DbCtx.Jobs.{job_by_commit_id}
use build_o_tron.Core.DbCtx.Runs.{last_run_for_job}
use build_o_tron.Base.{◌=?◌}
use build_o_tron.Base.Like.{like}
use build_o_tron.Web.Index.{now_shown, short_sha}

-- The `match run.state`: the badge, and the words for it.
unfoldable pub status_of : RunState → Option ℕ → String × String
status_of RunState.pending result = ("<span style='color:#660;'>pending</span>", "⌛in progress")
status_of RunState.started result = ("<span style='color:#660;'>pending</span>", "⌛in progress")
status_of RunState.finished (some zero) = ("<span style='color:green;'>pass</span>", "✅ passed")
status_of RunState.finished (some (suc n)) = ("<span style='color:red;'>failed</span>", "❌ failed")
status_of RunState.finished none =
    ("<span style='color:red;'>unreported</span>", "❔ missing status")
status_of RunState.error result = ("<span style='color:red;'>error</span>", "🧯 error, uncompleted")
status_of RunState.invalid result =
    ("<span style='color:red;'>(server error)</span>", "dude even i don't know")

-- `run.build_result == Some(1)`
abbrev is_one : Option ℕ → Bool
is_one none = false
is_one (some n) = n == 1

abbrev is_finished : RunState → Bool
is_finished RunState.finished = true
is_finished RunState.pending = false
is_finished RunState.started = false
is_finished RunState.error = false
is_finished RunState.invalid = false

abbrev is_error : RunState → Bool
is_error RunState.error = true
is_error RunState.pending = false
is_error RunState.started = false
is_error RunState.finished = false
is_error RunState.invalid = false

-- `debug_info`: whether the recent artifacts are shown in full.
unfoldable pub debug_info : RunState → Option ℕ → Bool
debug_info state result = (is_finished state && is_one result) || is_error state

-- `diff_times`, with the clock.
unfoldable pub diff_times : ℕ → ℕ → Option ℕ → ℕ
diff_times now run_completed artifact_completed =
    let completed = Option.get_or artifact_completed now in max run_completed completed - completed

-- The `filter` of `artifacts`: those of this run of the run.
abbrev of_this_start : ℕ → Run → ArtifactRecord → Bool
of_this_start now run a = leb (Option.get_or run.start_time now) a.created_time

unfoldable pub current_artifacts : ℕ → Run → List ArtifactRecord → List ArtifactRecord
current_artifacts now run artifacts = select (of_this_start now run) artifacts

unfoldable pub recent_artifacts : ℕ → ℕ → List ArtifactRecord → List ArtifactRecord
unfolding diff_times
recent_artifacts now complete artifacts =
    select (λ (a : ArtifactRecord). leb (diff_times now complete a.completed_time) 60000) artifacts

unfoldable pub old_artifacts : ℕ → ℕ → List ArtifactRecord → List ArtifactRecord
unfolding diff_times
old_artifacts now complete artifacts =
    select (λ (a : ArtifactRecord). ltb 60000 (diff_times now complete a.completed_time)) artifacts

-- `select id, sha from commits where sha like ?1;` with `<sha>%`, whatever the characters asked for.
abbrev pub commit_by_prefix : String → Db → Option CommitRow
commit_by_prefix prefix db =
    first? (λ (c : CommitRow). like (append prefix "%") c.sha) db.commits.rows

pub record CommitPage : Type 0 where
  pub repo_id : ℕ
  pub commit_id : ℕ
  pub sha : String
  pub short : String
  pub name : Option CommitName
  pub run : Run

-- What the path leads to: two kinds of 404, or what the page is about.
pub data Lookup : Type 0 where
  no_remote no_commit : Lookup
  found : CommitPage → Lookup

abbrev pub page_of_commit : Remote → Option CommitRow → Action DbCtx Lookup
page_of_commit remote none = pure no_commit
page_of_commit remote (some c) = do
  name ← expect "can query" (nice_name_for_commit c.id)
  short ← now_shown (short_sha c.sha)
  row ← expect "can query" (job_by_commit_id c.id)
  job ← expect_some "job exists" row
  last ← expect "can query" (last_run_for_job job.id)
  run ← expect_some "run exists" last
  pure (
      found (record {
        repo_id = remote.repo_id;
        commit_id = c.id;
        sha = c.sha;
        short = short;
        name = name;
        run = run;
      }))

abbrev pub page_of_remote : String → Option Remote → Action DbCtx Lookup
page_of_remote sha none = pure no_remote
page_of_remote sha (some remote) = if ltb (len sha) 7 then pure no_commit else (do
  commit ← locked (λ db. (ok (commit_by_prefix sha db), db))
  page_of_commit remote commit)

-- The lookups of `handle_commit_status` for `/<owner>/<repo>/<sha>`.
unfoldable pub commit_page : String → String → String → Action DbCtx Lookup
unfolding nice_name_for_commit job_by_commit_id last_run_for_job like
commit_page owner repo sha = do
  remote ← locked (λ db. (
    ok (first? (λ (r : Remote). r.remote_path =? append (append owner "/") repo) db.remotes.rows),
    db,
  ))
  page_of_remote sha remote
