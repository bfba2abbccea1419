-- ===== src/Server/Unchanged.antt =====
-- The pages of ci-web-server/src/main.rs only read the database.
use build_o_tron.Base.{
  ℕ, suc, String, Bool-cases, inl, inr, Option, none, some, List, [], ◌∷◌, ◌++◌, ltb,
}
use Prim.Native.String.{len}
use build_o_tron.Core.Sql.{Job, Run, Repo, Remote, MetricRecord, ArtifactRecord, CommitName}
use build_o_tron.Core.Db.{RunRow, CommitRow}
use build_o_tron.Core.DbCtx.Remotes.{queried, find_repo}
use build_o_tron.Core.DbCtx.Commits.{nice_name_for_commit}
use build_o_tron.Core.DbCtx.Jobs.{job_by_commit_id, recent_jobs_from_remote}
use build_o_tron.Core.DbCtx.PerHost.{runs_for_job_one_per_host}
use build_o_tron.Core.DbCtx.Artifacts.{metrics_for_run, artifacts_for_run}
use build_o_tron.Core.DbCtx.Remotes.{remotes_by_repo}
use build_o_tron.Core.DbCtx.ReadOnly.{
  IsReadOnly, known-IsReadOnly, find-IsReadOnly, expect-IsReadOnly, expect_some-IsReadOnly,
  bind-IsReadOnly, host_model_info-IsReadOnly,
}
use build_o_tron.Web.Index.{now_shown, short_sha}
use build_o_tron.Web.Index.Unchanged.{
  last_run_for_job-IsReadOnly, run_cells-IsReadOnly, build_repo_index-IsReadOnly,
}
use build_o_tron.Web.Time.{display_run_time}
use build_o_tron.Server.Metrics.{
  host_of, MetricsMap, HostDesc, add_run, add_runs, summarize_job_metrics, MetricsInfo,
}
use build_o_tron.Server.CommitStatus.{
  Lookup, no_remote, no_commit, found, page_of_commit, page_of_remote, commit_page,
}
use build_o_tron.Server.CommitPage.{World, artifacts_fragment, show_page, handle_commit_status}
use build_o_tron.Server.Summary.{collect_jobs, summary_of, repo_summary}
use build_o_tron.Server.RepoPage.{build_rows, page_of, handle_repo_summary, handle_ci_index}

host_of-IsReadOnly : (id : Option ℕ) → IsReadOnly (host_of id)
host_of-IsReadOnly none = known-IsReadOnly _
host_of-IsReadOnly (some id) = expect-IsReadOnly _ (host_model_info-IsReadOnly id)

add_run-IsReadOnly : (names : List String) (run : Run) → IsReadOnly (add_run names run)
unfolding add_run metrics_for_run
add_run-IsReadOnly names run =
    bind-IsReadOnly _ _ (expect-IsReadOnly _ (find-IsReadOnly _)) λ (metrics : List MetricRecord).
      bind-IsReadOnly _ _ (host_of-IsReadOnly run.host_id)
        λ (host : String × String × String × String × ℕ). known-IsReadOnly _

add_runs-IsReadOnly :
    (names : List String) (done : List (MetricsMap × HostDesc)) (runs : List Run)
    → IsReadOnly (add_runs names done runs)
unfolding add_runs
add_runs-IsReadOnly names done [] = known-IsReadOnly _
add_runs-IsReadOnly names done (run ∷ runs) =
    bind-IsReadOnly _ _ (add_run-IsReadOnly names run) λ (r : List String × MetricsMap × HostDesc).
      add_runs-IsReadOnly r.0 (done ++ ((r.1, r.2) ∷ [])) runs

summarize_job_metrics-IsReadOnly :
    (choose : RunRow → List RunRow → RunRow) (job_id : ℕ)
    → IsReadOnly (summarize_job_metrics choose job_id)
unfolding summarize_job_metrics runs_for_job_one_per_host
summarize_job_metrics-IsReadOnly choose job_id =
    bind-IsReadOnly _ _ (find-IsReadOnly _) λ (runs : List Run). add_runs-IsReadOnly [] [] runs

page_of_commit-IsReadOnly :
    (remote : Remote) (c : Option CommitRow) → IsReadOnly (page_of_commit remote c)
unfolding nice_name_for_commit job_by_commit_id
page_of_commit-IsReadOnly remote none = known-IsReadOnly _
page_of_commit-IsReadOnly remote (some c) =
    bind-IsReadOnly _ _ (expect-IsReadOnly _ (find-IsReadOnly _)) λ (name : Option CommitName).
      bind-IsReadOnly (now_shown (short_sha c.sha)) _ (known-IsReadOnly _) λ (short : String).
        bind-IsReadOnly _ _ (expect-IsReadOnly _ (find-IsReadOnly _)) λ (row : Option Job).
          bind-IsReadOnly _ _ (expect_some-IsReadOnly _ row) λ (job : Job).
            bind-IsReadOnly _ _ (expect-IsReadOnly _ (last_run_for_job-IsReadOnly job.id))
              λ (last : Option Run).
                bind-IsReadOnly _ _ (expect_some-IsReadOnly _ last)
                  λ (run : Run). known-IsReadOnly _

page_of_remote-IsReadOnly :
    (sha : String) (remote : Option Remote) → IsReadOnly (page_of_remote sha remote)
page_of_remote-IsReadOnly sha none = known-IsReadOnly _
page_of_remote-IsReadOnly sha (some remote) = elim (Bool-cases (ltb (len sha) 7)) [
  | inl y ↦ rw y (known-IsReadOnly _)
  | inr n ↦ rw n (
      bind-IsReadOnly _ _ (find-IsReadOnly _)
        λ (c : Option CommitRow). page_of_commit-IsReadOnly remote c)
]

module _ (w : World) where
  show_page-IsReadOnly : (owner repo : String) (l : Lookup) → IsReadOnly (show_page w owner repo l)
  unfolding artifacts_for_run
  show_page-IsReadOnly owner repo no_remote = known-IsReadOnly _
  show_page-IsReadOnly owner repo no_commit = known-IsReadOnly _
  show_page-IsReadOnly owner repo (found p) =
      bind-IsReadOnly _ _ (find-IsReadOnly (λ db. queried (find_repo p.repo_id db)))
        λ (named : Repo).
          bind-IsReadOnly (now_shown (display_run_time w.now p.run)) _ (known-IsReadOnly _)
            λ (time : String).
              bind-IsReadOnly _ _ (expect-IsReadOnly _ (find-IsReadOnly _))
                λ (rows : List ArtifactRecord).
                  bind-IsReadOnly (now_shown (artifacts_fragment w p.run rows)) _
                    (known-IsReadOnly _)
                    λ (fragment : String).
                      bind-IsReadOnly _ _
                        (expect-IsReadOnly _
                          (summarize_job_metrics-IsReadOnly w.choose p.run.job_id))
                        λ (metrics : MetricsInfo). known-IsReadOnly _

  handle_commit_status-IsReadOnly :
      (owner repo sha : String) → IsReadOnly (handle_commit_status w owner repo sha)
  unfolding handle_commit_status commit_page
  handle_commit_status-IsReadOnly owner repo sha =
      bind-IsReadOnly _ _
        (bind-IsReadOnly _ _ (find-IsReadOnly _)
          λ (remote : Option Remote). page_of_remote-IsReadOnly sha remote)
        λ (l : Lookup). show_page-IsReadOnly owner repo l

collect_jobs-IsReadOnly : (n : ℕ) (remotes : List Remote) → IsReadOnly (collect_jobs n remotes)
unfolding collect_jobs recent_jobs_from_remote
collect_jobs-IsReadOnly n [] = known-IsReadOnly _
collect_jobs-IsReadOnly n (r ∷ remotes) =
    bind-IsReadOnly _ _ (expect-IsReadOnly _ (find-IsReadOnly _)) λ (jobs : List Job).
      bind-IsReadOnly _ _ (collect_jobs-IsReadOnly n remotes)
        λ (rest : List Job). known-IsReadOnly _

summary_of-IsReadOnly : (asked : Option ℕ) (repo : Option Repo) → IsReadOnly (summary_of asked repo)
unfolding remotes_by_repo
summary_of-IsReadOnly asked none = known-IsReadOnly _
summary_of-IsReadOnly asked (some repo) =
    bind-IsReadOnly _ _ (expect-IsReadOnly _ (find-IsReadOnly _)) λ (remotes : List Remote).
      bind-IsReadOnly _ _ (collect_jobs-IsReadOnly _ remotes)
        λ (jobs : List Job). known-IsReadOnly _

module _ (date : ℕ → String) (now : ℕ) where
  build_rows-IsReadOnly : (n : ℕ) (jobs : List Job) → IsReadOnly (build_rows date now n jobs)
  unfolding build_rows
  build_rows-IsReadOnly n [] = known-IsReadOnly _
  build_rows-IsReadOnly n (job ∷ jobs) =
      bind-IsReadOnly _ _ (expect-IsReadOnly _ (last_run_for_job-IsReadOnly job.id))
        λ (last : Option Run). bind-IsReadOnly _ _ (expect_some-IsReadOnly _ last) λ (run : Run).
          bind-IsReadOnly _ _ (run_cells-IsReadOnly date now job run) λ (cells : List String).
            bind-IsReadOnly _ _ (build_rows-IsReadOnly (suc n) jobs)
              λ (rest : List String). known-IsReadOnly _

  page_of-IsReadOnly :
      (name : String) (jobs : Option (List Job)) → IsReadOnly (page_of date now name jobs)
  page_of-IsReadOnly name none = known-IsReadOnly _
  page_of-IsReadOnly name (some jobs) =
      bind-IsReadOnly _ _ (build_rows-IsReadOnly 0 jobs) λ (rows : List String). known-IsReadOnly _

  handle_repo_summary-IsReadOnly :
      (name : String) (asked : Option ℕ) → IsReadOnly (handle_repo_summary date now name asked)
  unfolding handle_repo_summary repo_summary
  handle_repo_summary-IsReadOnly name asked =
      bind-IsReadOnly _ _
        (bind-IsReadOnly _ _ (find-IsReadOnly _)
          λ (repo : Option Repo). summary_of-IsReadOnly asked repo)
        λ (jobs : Option (List Job)). page_of-IsReadOnly name jobs

  handle_ci_index-IsReadOnly : IsReadOnly (handle_ci_index date now)
  unfolding handle_ci_index
  handle_ci_index-IsReadOnly =
      let h = build_repo_index-IsReadOnly date now in record { keeps = h.keeps }

-- Whatever page is asked for, of a commit, of a repo or of all repos, and however the request ends, the
-- database is what it was.
pub pages-IsReadOnly :
    (w : World) (owner repo sha : String) (asked : Option ℕ)
    → IsReadOnly (handle_commit_status w owner repo sha)
      × IsReadOnly (handle_repo_summary w.date w.now owner asked)
      × IsReadOnly (handle_ci_index w.date w.now)
pages-IsReadOnly w owner repo sha asked = (
  handle_commit_status-IsReadOnly w owner repo sha,
  handle_repo_summary-IsReadOnly w.date w.now owner asked,
  handle_ci_index-IsReadOnly w.date w.now,
)
