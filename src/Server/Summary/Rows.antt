-- ===== src/Server/Summary/Rows.antt =====
-- How many builds the page of a repo lists, and in which order (`handle_repo_summary`,
-- ci-web-server/src/main.rs).
use build_o_tron.Base.{
  ℕ, ◌≤◌, String, ◌≡◌, Option, none, some, List, ok, length, order_desc, arith, length-take_le,
  IsDescending, order_desc-IsDescending, take-IsDescending, first?, ◌=?◌, bind-ok, expect, ◌>>=◌,
  pure,
}
use build_o_tron.Core.Sql.{Job, Repo}
use build_o_tron.Core.DbCtx.Lock.{DbCtx, locked}
use build_o_tron.Core.DbCtx.Remotes.{remotes_by_repo}
use build_o_tron.Server.Summary.{
  rows_shown, max_rows, default_rows, last_builds, repo_summary, summary_of, collect_jobs,
}

abbrev pub created : Job → Option ℕ
created j = some j.created_time

rows_shown-bounds :
    (asked : Option ℕ) → (default_rows ≤ rows_shown asked) × (rows_shown asked ≤ max_rows)
unfolding rows_shown
rows_shown-bounds none = (omega arith, omega arith)
rows_shown-bounds (some n) = (omega arith, omega arith)

last_builds-fits :
    (asked : Option ℕ) (jobs : List Job)
    → (length (last_builds (rows_shown asked) jobs) ≤ max_rows)
      × IsDescending created (last_builds (rows_shown asked) jobs)
unfolding last_builds
last_builds-fits asked jobs = (
  omega (
    arith,
    length-take_le (rows_shown asked) (order_desc created jobs),
    (rows_shown-bounds asked).1,
  ),
  take-IsDescending created (rows_shown asked) (order_desc created jobs)
      (order_desc-IsDescending created jobs),
)

summary-fits :
    (asked : Option ℕ) (repo : Option Repo) (ctx : DbCtx) (shown : List Job)
    → (summary_of asked repo ctx).0 ≡ ok (some shown)
    → (length shown ≤ max_rows) × IsDescending created shown
summary-fits asked none ctx shown h = cc
summary-fits asked (some repo) ctx shown h =
    let (remotes, e, h1) =
      bind-ok (expect "can get repo from a path" (remotes_by_repo repo.id))
        (λ remotes. collect_jobs (rows_shown asked) remotes >>= λ jobs.
          pure (some (last_builds (rows_shown asked) jobs)))
        ctx (some shown) h in
    let (jobs, f, h2) =
      bind-ok (collect_jobs (rows_shown asked) remotes)
        (λ jobs. pure (some (last_builds (rows_shown asked) jobs))) _ (some shown) h1 in
    let q : last_builds (rows_shown asked) jobs ≡ shown = cc h2 in
    rw (← q) (last_builds-fits asked jobs)

-- Whatever number of rows is asked for, the page of a repo lists at most 100 builds, of which none is
-- older than one that stands below it.
pub repo_summary-fits :
    (name : String) (asked : Option ℕ) (ctx : DbCtx) (shown : List Job)
    → (repo_summary name asked ctx).0 ≡ ok (some shown)
    → (length shown ≤ max_rows) × IsDescending created shown
unfolding repo_summary
repo_summary-fits name asked ctx shown h =
    let (repo, e, h1) =
      bind-ok (locked (λ db. (ok (first? (λ (r : Repo). r.name =? name) db.repos.rows), db)))
        (summary_of asked) ctx (some shown) h in
    summary-fits asked repo _ shown h1
