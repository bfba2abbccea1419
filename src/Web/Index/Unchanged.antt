-- ===== src/Web/Index/Unchanged.antt =====
-- The pages of ci-lib-web/src/lib.rs only read the database.
use build_o_tron.Base.{
  ℕ, suc, String, Option, none, some, List, [], ◌∷◌, Action, expect_some, ◌>>=◌,
}
use build_o_tron.Core.Sql.{Job, Run, Repo, Remote}
use build_o_tron.Core.DbCtx.Lock.{DbCtx}
use build_o_tron.Core.DbCtx.Commits.{nice_name_for_commit}
use build_o_tron.Core.DbCtx.Jobs.{last_job_from_remote, job_by_id, recent_jobs_from_remote}
use build_o_tron.Core.DbCtx.Runs.{last_run_for_job, get_active_runs}
use build_o_tron.Core.DbCtx.Remotes.{remote_by_id, get_repos, remotes_by_repo, repo_by_id}
use build_o_tron.Core.DbCtx.ReadOnly.{
  IsReadOnly, known-IsReadOnly, find-IsReadOnly, expect-IsReadOnly, expect_some-IsReadOnly,
  bind-IsReadOnly, commit_sha-IsReadOnly,
}
use build_o_tron.Web.Time.{display_run_time}
use build_o_tron.Web.Links.{commit_url, job_url}
use build_o_tron.Web.Index.{
  last_run_of, most_recent_run, run_cells, repo_rows, active_rows, build_repo_index, now_shown,
  short_sha, repo_cells,
}

pub last_run_for_job-IsReadOnly : (id : ℕ) → IsReadOnly (last_run_for_job id)
unfolding last_run_for_job
last_run_for_job-IsReadOnly id = find-IsReadOnly _

last_run_of-IsReadOnly :
    (job : Option Job) (best : Option (Job × Run)) → IsReadOnly (last_run_of job best)
last_run_of-IsReadOnly none best = known-IsReadOnly _
last_run_of-IsReadOnly (some job) best =
    bind-IsReadOnly _ _ (expect-IsReadOnly _ (last_run_for_job-IsReadOnly job.id))
      λ run. known-IsReadOnly _

most_recent_run-IsReadOnly :
    (best : Option (Job × Run)) (remotes : List Remote) → IsReadOnly (most_recent_run best remotes)
unfolding most_recent_run last_job_from_remote recent_jobs_from_remote
most_recent_run-IsReadOnly best [] = known-IsReadOnly _
most_recent_run-IsReadOnly best (r ∷ remotes) =
    bind-IsReadOnly _ _
      (expect-IsReadOnly _ (bind-IsReadOnly _ _ (find-IsReadOnly _) (λ jobs. known-IsReadOnly _)))
      λ (job : Option Job).
        bind-IsReadOnly _ _ (last_run_of-IsReadOnly job best)
          λ (best' : Option (Job × Run)). most_recent_run-IsReadOnly best' remotes

remote_by_id-IsReadOnly :
    {A : Type 0} (job : Job) (f : Remote → Action DbCtx A)
    → ((r : Remote) → IsReadOnly (f r))
    → (msg : String)
    → IsReadOnly (remote_by_id job.remote_id >>= λ found. expect_some msg found >>= f)
unfolding remote_by_id
remote_by_id-IsReadOnly job f h msg =
    bind-IsReadOnly _ _ (find-IsReadOnly _)
      λ (found : Option Remote). bind-IsReadOnly _ _ (expect_some-IsReadOnly msg found) h

pub run_cells-IsReadOnly :
    (date : ℕ → String) (now : ℕ) (job : Job) (run : Run) → IsReadOnly (run_cells date now job run)
unfolding run_cells job_url commit_url nice_name_for_commit
run_cells-IsReadOnly date now job run =
    bind-IsReadOnly _ _ (expect-IsReadOnly _ (commit_sha-IsReadOnly job.commit_id)) λ sha.
      bind-IsReadOnly _ _ (expect-IsReadOnly _ (find-IsReadOnly _)) λ name.
        bind-IsReadOnly _ _ (remote_by_id-IsReadOnly job _ (λ r. known-IsReadOnly _) _) λ url.
          bind-IsReadOnly (now_shown (short_sha sha)) _ (known-IsReadOnly _) λ short.
            bind-IsReadOnly _ _ (remote_by_id-IsReadOnly job _ (λ r. known-IsReadOnly _) _)
              λ source.
                bind-IsReadOnly (now_shown (display_run_time now run)) _ (known-IsReadOnly _)
                  λ duration. known-IsReadOnly _

module _ (date : ℕ → String) (now : ℕ) where
  repo_cells-IsReadOnly :
      (repo : Repo) (best : Option (Job × Run)) → IsReadOnly (repo_cells date now repo best)
  repo_cells-IsReadOnly repo none = known-IsReadOnly _
  repo_cells-IsReadOnly repo (some (job, run)) =
      bind-IsReadOnly _ _ (run_cells-IsReadOnly date now job run) λ cells. known-IsReadOnly _

  repo_rows-IsReadOnly : (n : ℕ) (repos : List Repo) → IsReadOnly (repo_rows date now n repos)
  unfolding repo_rows remotes_by_repo
  repo_rows-IsReadOnly n [] = known-IsReadOnly _
  repo_rows-IsReadOnly n (repo ∷ repos) =
      bind-IsReadOnly _ _ (expect-IsReadOnly _ (find-IsReadOnly _)) λ (remotes : List Remote).
        bind-IsReadOnly _ _ (most_recent_run-IsReadOnly none remotes) λ (best : Option (Job × Run)).
          bind-IsReadOnly _ _ (repo_cells-IsReadOnly repo best) λ (cells : List String).
            bind-IsReadOnly _ _ (repo_rows-IsReadOnly (suc n) repos)
              λ (rest : String). known-IsReadOnly _

  active_rows-IsReadOnly : (n : ℕ) (runs : List Run) → IsReadOnly (active_rows date now n runs)
  unfolding active_rows job_by_id remote_by_id repo_by_id
  active_rows-IsReadOnly n [] = known-IsReadOnly _
  active_rows-IsReadOnly n (run ∷ runs) =
      bind-IsReadOnly _ _ (find-IsReadOnly _) λ (row : Option Job).
        bind-IsReadOnly _ _ (expect_some-IsReadOnly _ row) λ (job : Job).
          bind-IsReadOnly _ _ (find-IsReadOnly _) λ (found : Option Remote).
            bind-IsReadOnly _ _ (expect_some-IsReadOnly _ found) λ (remote : Remote).
              bind-IsReadOnly _ _ (find-IsReadOnly _) λ (owner : Option Repo).
                bind-IsReadOnly _ _ (expect_some-IsReadOnly _ owner) λ (repo : Repo).
                  bind-IsReadOnly _ _ (run_cells-IsReadOnly date now job run)
                    λ (cells : List String).
                      bind-IsReadOnly _ _ (active_rows-IsReadOnly (suc n) runs)
                        λ (rest : String). known-IsReadOnly _

  pub build_repo_index-IsReadOnly : IsReadOnly (build_repo_index date now)
  unfolding build_repo_index get_repos get_active_runs
  build_repo_index-IsReadOnly = bind-IsReadOnly _ _ (find-IsReadOnly _) λ (repos : List Repo).
      bind-IsReadOnly _ _ (repo_rows-IsReadOnly 0 repos) λ (rows : String).
        bind-IsReadOnly _ _ (expect-IsReadOnly _ (find-IsReadOnly _)) λ (runs : List Run).
          bind-IsReadOnly _ _ (active_rows-IsReadOnly 0 runs)
            λ (active : String). known-IsReadOnly _
