-- ===== src/Tests/Pages.antt =====
-- The theorems on the pages at concrete inputs.
use Prim.Native.String.{len}
use build_o_tron.Base.{◌≡◌, ◌≤◌, refl, true, none, some, List, [], ◌∷◌, ok, err, Memᴰ}
use build_o_tron.Base.Like.{codes, begins_with}
use build_o_tron.Core.Sql.{Run, RunState}
use build_o_tron.Core.Db.{RunRow}
use build_o_tron.Core.DbCtx.Runs.{run_of}
use build_o_tron.Core.DbCtx.PerHost.{runs_for_job_one_per_host}
use build_o_tron.Core.DbCtx.PerHost.Distinct.{count_runs, runs_for_job_one_per_host-count}
use build_o_tron.Core.DbCtx.ReadOnly.{IsReadOnly}
use build_o_tron.Server.CommitStatus.{CommitPage, commit_page}
use build_o_tron.Server.CommitStatus.Sought.{commit_page-sought}
use build_o_tron.Server.CommitPage.{World, handle_commit_status}
use build_o_tron.Server.CommitPage.Quiet.{rewritten, handle_commit_status-rewritten}
use build_o_tron.Server.RepoPage.{handle_repo_summary, handle_ci_index}
use build_o_tron.Server.Unchanged.{pages-IsReadOnly}
use build_o_tron.Tests.Data.{started_ctx, started_run, sha}

abbrev first_row : RunRow → List RunRow → RunRow
first_row r rows = r

abbrev here : World
here = record {
  now = 9000;
  date = λ t. "then";
  ghz = λ f. "3.500";
  size = λ path. ok 2048;
  contents = λ path. ok "hello";
  choose = first_row;
}

abbrev shown_page : CommitPage
shown_page = record {
  repo_id = 1;
  commit_id = 1;
  sha = sha;
  short = "012345678";
  name = none;
  run = run_of started_run RunState.started;
}

handle_commit_status-rewritten_example :
    handle_commit_status
      (rewritten here (λ path. err "gone"))
      "iximeow"
      "yaxpeax-x86"
      "0123456"
      started_ctx
    ≡ handle_commit_status here "iximeow" "yaxpeax-x86" "0123456" started_ctx
unfolding commit_page build_o_tron.Core.Sql.run_state_of build_o_tron.Server.CommitStatus.debug_info
handle_commit_status-rewritten_example =
    handle_commit_status-rewritten here (λ path. err "gone") "iximeow" "yaxpeax-x86" "0123456"
      started_ctx shown_page refl (λ e. cc e) (λ e. cc e)

commit_page-sought_example :
    (7 ≤ len "0123456") × (begins_with (codes "0123456") (codes sha) ≡ true)
unfolding commit_page build_o_tron.Core.Sql.run_state_of
commit_page-sought_example =
    commit_page-sought "iximeow" "yaxpeax-x86" "0123456" started_ctx shown_page
      (
        (refl, refl),
        (
          (refl, refl),
          ((refl, refl), ((refl, refl), ((refl, refl), ((refl, refl), ((refl, refl), tt))))),
        ),
      )
      refl

runs_for_job_one_per_host-count_example :
    count_runs (some 1) (run_of started_run RunState.started ∷ []) ≡ 1
unfolding runs_for_job_one_per_host build_o_tron.Core.DbCtx.Runs.rows2runs
    build_o_tron.Core.Sql.run_state_of
runs_for_job_one_per_host-count_example =
    runs_for_job_one_per_host-count first_row 1 started_ctx
      (run_of started_run RunState.started ∷ []) (some 1) (λ r rows. Memᴰ.head refl) refl

pages-IsReadOnly_example :
    IsReadOnly (handle_commit_status here "iximeow" "yaxpeax-x86" sha)
    × IsReadOnly (handle_repo_summary here.date here.now "iximeow" none)
    × IsReadOnly (handle_ci_index here.date here.now)
pages-IsReadOnly_example = pages-IsReadOnly here "iximeow" "yaxpeax-x86" sha none
