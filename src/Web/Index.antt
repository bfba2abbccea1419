-- ===== src/Web/Index.antt =====
-- `build_repo_index` of ci-lib-web/src/lib.rs: the page that lists the repos with their last runs, and
-- the active runs.
pub mod Unchanged
use Prim.Native.Nat.{◌%◌}
use Prim.Native.String.{◌++◌ as append}
use text.Mathlib.Text.{get?}
use build_o_tron.Base.{
  ℕ, zero, suc, String, Bool, true, Option, none, some, List, [], ◌∷◌, Outcome, ok, panic, Action,
  ◌>>=◌, pure, expect, expect_some, length, map, ltb, ◌==◌, if◌then◌else◌, decimal, join,
}
use build_o_tron.Core.Sql.{Job, Run, RunState, Repo, Remote, CommitName, stringy}
use build_o_tron.Core.DbCtx.Lock.{DbCtx}
use build_o_tron.Core.DbCtx.Commits.{commit_sha, nice_name_for_commit}
use build_o_tron.Core.DbCtx.Jobs.{job_by_id, last_job_from_remote}
use build_o_tron.Core.DbCtx.Runs.{last_run_for_job, get_active_runs}
use build_o_tron.Core.DbCtx.Remotes.{get_repos, remotes_by_repo, remote_by_id, repo_by_id}
use build_o_tron.Web.Time.{display_run_time}
use build_o_tron.Web.Links.{commit_url, job_url}

abbrev pub concat : List String → String
concat ts = join "" ts

-- `&job_commit[..9]` panics on a shorter text.
abbrev pub short_sha : String → Outcome String
short_sha sha = elim (get? sha 0 9) [ none ↦ panic "byte index 9 is out of bounds" | some s ↦ ok s ]

abbrev pub now_shown : {A : Type 0} → Outcome A → Action DbCtx A
now_shown r ctx = (r, ctx)

-- Later in time than the run kept so far?
abbrev pub is_later : Option (Job × Run) → Run → Bool
is_later none run = true
is_later (some (_, best)) run = ltb best.create_time run.create_time

abbrev pub keep_later : Option (Job × Run) → Job → Option Run → Option (Job × Run)
keep_later best job none = best
keep_later best job (some run) = if is_later best run then some (job, run) else best

abbrev pub last_run_of : Option Job → Option (Job × Run) → Action DbCtx (Option (Job × Run))
last_run_of none best = pure best
last_run_of (some job) best = do
  run ← expect "can query" (last_run_for_job job.id)
  pure (keep_later best job run)

-- The loop over a repo's remotes: the last run of each one's last job, and of these the newest.
unfoldable pub most_recent_run :
    Option (Job × Run) → List Remote → Action DbCtx (Option (Job × Run))
unfolding last_run_for_job last_job_from_remote
most_recent_run best [] = pure best
most_recent_run best (remote ∷ remotes) = do
  job ← expect "job by remote works" (last_job_from_remote remote.id)
  best' ← last_run_of job best
  most_recent_run best' remotes

abbrev pub link : String → String → String
link url text = concat ("<a href=\"" ∷ url ∷ "\">" ∷ text ∷ "</a>" ∷ [])

abbrev pub repo_link : String → String
repo_link name = link (append "/" name) name

abbrev commit_text : String → String → ℕ → Option CommitName → String
commit_text url short id none = concat (link url short ∷ " (job " ∷ decimal id ∷ ")" ∷ [])
commit_text url short id (some name) =
    concat (link url short ∷ " (job " ∷ decimal id ∷ ") " ∷ stringy name ∷ [])

abbrev remote_text : String × Option String → String
remote_text (source, none) = source
remote_text (source, some url) = link url source

-- `format!("{:?}", run.state).to_lowercase()`
unfoldable pub state_name : RunState → String
state_name RunState.pending = "pending"
state_name RunState.started = "started"
state_name RunState.finished = "finished"
state_name RunState.error = "error"
state_name RunState.invalid = "invalid"

unfoldable pub result_text : Option ℕ → RunState → String
result_text (some zero) state = "<span style='color:green;'>pass</span>"
result_text (some (suc n)) state = "<span style='color:red;'>fail</span>"
result_text none RunState.pending = "unstarted"
result_text none RunState.started = "<span style='color:darkgoldenrod;'>in progress</span>"
result_text none state = "<span style='color:red;'>unreported</span>"

-- `entries.iter().chain(repeat("")).take(n)`
unfoldable pub padded : ℕ → List String → List String
padded zero entries = []
padded (suc n) [] = "" ∷ padded n []
padded (suc n) (e ∷ entries) = e ∷ padded n entries

abbrev pub headings : List String
headings = "repo" ∷ "last build" ∷ "commit/job" ∷ "remote" ∷ "duration" ∷ "status" ∷ "result" ∷ []

abbrev cell : String → String
cell entry = concat ("<td class='row-item'>" ∷ entry ∷ "</td>" ∷ [])

unfoldable pub row_html : ℕ → List String → String
unfolding padded
row_html columns entries = concat (map cell (padded columns entries))

-- The cells of one run, without the link to its repo. `date` renders a time; the clock is `now`.
unfoldable pub run_cells : (ℕ → String) → ℕ → Job → Run → Action DbCtx (List String)
unfolding display_run_time commit_url job_url commit_sha nice_name_for_commit state_name result_text
run_cells date now job run = do
  sha ← expect "job has a commit" (commit_sha job.commit_id)
  name ← expect "can try to get a nice name" (nice_name_for_commit job.commit_id)
  url ← job_url job sha
  short ← now_shown (short_sha sha)
  source ← commit_url job sha
  duration ← now_shown (display_run_time now run)
  pure (
      date run.create_time
      ∷ commit_text url short job.id name
      ∷ remote_text source
      ∷ duration
      ∷ state_name run.state
      ∷ result_text run.build_result run.state
      ∷ [])

abbrev pub row_class : ℕ → String
row_class n = if n % 2 == 0 then "even-row" else "odd-row"

abbrev table_row : ℕ → List String → String
table_row n entries =
    concat
      ("<tr class=\"" ∷ row_class n ∷ "\">" ∷ row_html (length headings) entries ∷ "</tr>\n" ∷ [])

module _ (date : ℕ → String) (now : ℕ) where
  abbrev pub repo_cells : Repo → Option (Job × Run) → Action DbCtx (List String)
  repo_cells repo none = pure (repo_link repo.name ∷ [])
  repo_cells repo (some (job, run)) = do
    cells ← run_cells date now job run
    pure (repo_link repo.name ∷ cells)

  unfoldable pub repo_rows : ℕ → List Repo → Action DbCtx String
  unfolding most_recent_run run_cells row_html remotes_by_repo
  repo_rows n [] = pure ""
  repo_rows n (repo ∷ repos) = do
    remotes ← expect "remotes by repo works" (remotes_by_repo repo.id)
    best ← most_recent_run none remotes
    cells ← repo_cells repo best
    rest ← repo_rows (suc n) repos
    pure (append (table_row n cells) rest)

  unfoldable pub active_rows : ℕ → List Run → Action DbCtx String
  unfolding run_cells row_html job_by_id remote_by_id repo_by_id
  active_rows n [] = pure ""
  active_rows n (run ∷ runs) = do
    row ← job_by_id run.job_id
    job ← expect_some "job id is valid" row
    found ← remote_by_id job.remote_id
    remote ← expect_some "remote id is valid" found
    owner ← repo_by_id remote.repo_id
    repo ← expect_some "repo id is valid" owner
    cells ← run_cells date now job run
    rest ← active_rows (suc n) runs
    pure (append (table_row n (repo_link repo.name ∷ cells)) rest)

  abbrev count_line : ℕ → String
  count_line zero = "<p>no repos configured, so there are no builds</p>\n"
  count_line (suc zero) = "<p>1 repo configured</p>\n"
  count_line other = concat ("<p>" ∷ decimal other ∷ " repos configured</p>\n" ∷ [])

  abbrev heading : String → String
  heading h = concat ("<th class='row-item'>" ∷ h ∷ "</th>" ∷ [])

  abbrev table_head : String
  table_head =
      concat
        ("<table class='build-table'>" ∷ "<tr>\n" ∷ concat (map heading headings) ∷ "</tr>\n" ∷ [])

  abbrev style : String
  style = concat (
      "<html>\n<style>\n"
      ∷ ".build-table { font-family: monospace; border: 1px solid black; border-collapse: collapse; }\n"
      ∷ ".row-item { padding-left: 4px; padding-right: 4px; border-right: 1px solid black; }\n"
      ∷ ".odd-row { background: #eee; }\n" ∷ ".even-row { background: #ddd; }\n" ∷ "</style>\n"
      ∷ "<h1>builds and build accessories</h1>\n" ∷ [])

  abbrev active_table : List Run → String → String
  active_table [] rows = "<p>(none)</p>\n"
  active_table (_ ∷ _) rows = concat (table_head ∷ rows ∷ "</table>\n" ∷ [])

  -- `build_repo_index`
  unfoldable pub build_repo_index : Action DbCtx String
  unfolding repo_rows active_rows get_repos get_active_runs
  build_repo_index = do
    repos ← get_repos
    rows ← repo_rows 0 repos
    runs ← expect "can query" get_active_runs
    active ← active_rows 0 runs
    pure (
        concat (
          style
          ∷ count_line (length repos)
          ∷ table_head
          ∷ rows
          ∷ "</table>"
          ∷ "<h4>active tasks</h4>\n"
          ∷ active_table runs active
          ∷ "</html>"
          ∷ []))
