-- ===== src/Server/Summary.antt =====
-- `handle_repo_summary` and `handle_get_artifact` of ci-web-server/src/main.rs, as far as they choose
-- what to show.
pub mod Rows
use mathlib.Core.Option
use build_o_tron.Base.{
  ℕ, String, Bool, true, false, Option, none, some, List, [], ◌∷◌, ◌++◌, Outcome, ok, Action, ◌>>=◌,
  ◌>>◌, pure, expect, first?, take, order_desc, min, max, ltb, ◌=?◌, if◌then◌else◌,
}
use build_o_tron.Core.Sql.{Job, Remote, Repo, ArtifactRecord}
use build_o_tron.Core.DbCtx.Lock.{DbCtx, locked}
use build_o_tron.Core.DbCtx.Jobs.{recent_jobs_from_remote}
use build_o_tron.Core.DbCtx.Remotes.{remotes_by_repo}
use build_o_tron.Core.DbCtx.Artifacts.{lookup_artifact}

abbrev pub max_rows : ℕ
max_rows = 100

abbrev pub default_rows : ℕ
default_rows = 10

-- `.unwrap_or(DEFAULT_ROWS).min(MAX_ROWS).max(DEFAULT_ROWS)`
unfoldable pub rows_shown : Option ℕ → ℕ
rows_shown asked = max (min (Option.get_or asked default_rows) max_rows) default_rows

-- The loop over the repo's remotes.
unfoldable pub collect_jobs : ℕ → List Remote → Action DbCtx (List Job)
unfolding recent_jobs_from_remote
collect_jobs rows [] = pure []
collect_jobs rows (r ∷ rs) = do
  jobs ← expect "can look up jobs for a repo" (recent_jobs_from_remote r.id rows)
  rest ← collect_jobs rows rs
  pure (jobs ++ rest)

-- `sort_by_key(|job| -(job.created_time as i64))`, which is stable, and `take(rows)`.
unfoldable pub last_builds : ℕ → List Job → List Job
last_builds rows jobs = take rows (order_desc (λ (j : Job). some j.created_time) jobs)

abbrev pub summary_of : Option ℕ → Option Repo → Action DbCtx (Option (List Job))
summary_of asked none = pure none
summary_of asked (some repo) = do
  remotes ← expect "can get repo from a path" (remotes_by_repo repo.id)
  jobs ← collect_jobs (rows_shown asked) remotes
  pure (some (last_builds (rows_shown asked) jobs))

-- The jobs that the page of a repo lists, newest first; `none` is the answer 404.
unfoldable pub repo_summary : String → Option ℕ → Action DbCtx (Option (List Job))
unfolding rows_shown collect_jobs last_builds remotes_by_repo
repo_summary name asked = do
  repo ← locked (λ db. (ok (first? (λ (r : Repo). r.name =? name) db.repos.rows), db))
  summary_of asked repo

-- `live_artifact` of `handle_get_artifact`: no completion yet, or one older than the artifact.
abbrev live : ℕ → Option ℕ → Bool
live created none = true
live created (some completed) = ltb completed created

unfoldable pub is_live : ArtifactRecord → Bool
is_live a = live a.created_time a.completed_time

-- The answers of `handle_get_artifact`: 404, the bytes so far and to come, or "all done".
pub data ArtifactReply : Type 0 where
  not_found streamed all_done : ArtifactReply

abbrev artifact_reply : Option ArtifactRecord → ArtifactReply
artifact_reply none = not_found
artifact_reply (some a) = if is_live a then streamed else all_done

unfoldable pub get_artifact : ℕ → ℕ → Action DbCtx ArtifactReply
unfolding lookup_artifact is_live
get_artifact run artifact_id = do
  found ← expect "called `Result::unwrap()` on an `Err` value" (lookup_artifact run artifact_id)
  pure (artifact_reply found)
