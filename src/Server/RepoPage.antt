-- ===== src/Server/RepoPage.antt =====
-- The page that `handle_repo_summary` of ci-web-server/src/main.rs answers with, and `handle_ci_index`.
use build_o_tron.Base.{
  ℕ, suc, String, Option, none, some, List, [], ◌∷◌, Outcome, ok, err, panic, Action, ◌>>=◌, pure,
  expect, expect_some, map, length,
}
use build_o_tron.Core.Sql.{Job}
use build_o_tron.Core.DbCtx.Lock.{DbCtx}
use build_o_tron.Core.DbCtx.Runs.{last_run_for_job}
use build_o_tron.Web.Index.{concat, run_cells, row_html, row_class, build_repo_index}
use build_o_tron.Server.Summary.{repo_summary}

abbrev pub headings : List String
headings = "last build" ∷ "commit/job" ∷ "remote" ∷ "duration" ∷ "status" ∷ "result" ∷ []

abbrev heading : String → String
heading h = concat ("<th class='row-item'>" ∷ h ∷ "</th>" ∷ [])

unfoldable pub page_start : String → String
page_start name = concat (
    "<html>\n"
    ∷ concat ("<title> ci.butactuallyin.space - " ∷ name ∷ " </title>\n" ∷ [])
    ∷ "<style>\n"
    ∷ ".build-table { font-family: monospace; border: 1px solid black; border-collapse: collapse; }\n"
    ∷ ".row-item { padding-left: 4px; padding-right: 4px; border-right: 1px solid black; }\n"
    ∷ ".odd-row { background: #eee; }\n"
    ∷ ".even-row { background: #ddd; }\n"
    ∷ "</style>\n"
    ∷ concat ("<h1>" ∷ name ∷ " build history</h1>\n" ∷ [])
    ∷ "<a href=/>full repos index</a><p> </p>\n"
    ∷ "<table class='build-table'>"
    ∷ "<tr>\n"
    ∷ concat (map heading headings)
    ∷ "</tr>\n"
    ∷ [])

abbrev pub build_row : ℕ → List String → String
build_row n cells =
    concat
      ("<tr class=\"" ∷ row_class n ∷ "\">" ∷ row_html (length headings) cells ∷ "</tr>\n" ∷ [])

module _ (date : ℕ → String) (now : ℕ) where
  -- The loop over the builds that are shown, with the number of the row.
  unfoldable pub build_rows : ℕ → List Job → Action DbCtx (List String)
  unfolding run_cells row_html last_run_for_job
  build_rows n [] = pure []
  build_rows n (job ∷ jobs) = do
    last ← expect "query succeeds" (last_run_for_job job.id)
    run ← expect_some "TODO: run exists if job exists" last
    cells ← run_cells date now job run
    rest ← build_rows (suc n) jobs
    pure (build_row n cells ∷ rest)

  abbrev pub page_of : String → Option (List Job) → Action DbCtx (ℕ × String)
  page_of name none = pure (404, "")
  page_of name (some jobs) = do
    rows ← build_rows 0 jobs
    pure (200, concat (page_start name ∷ concat rows ∷ "</html>" ∷ []))

  -- `handle_repo_summary`
  unfoldable pub handle_repo_summary : String → Option ℕ → Action DbCtx (ℕ × String)
  unfolding repo_summary page_start build_rows
  handle_repo_summary name asked = do jobs ← repo_summary name asked; page_of name jobs

  abbrev pub index_reply : Outcome String → Outcome (ℕ × String)
  index_reply (ok html) = ok (200, html)
  index_reply (err e) = ok (500, e)
  index_reply (panic e) = panic e

  -- `handle_ci_index`
  unfoldable pub handle_ci_index : Action DbCtx (ℕ × String)
  unfolding build_repo_index
  handle_ci_index ctx = let (html, ctx') = build_repo_index date now ctx in (index_reply html, ctx')
