-- ===== src/Server/CommitPage.antt =====
-- The page that `handle_commit_status` of ci-web-server/src/main.rs answers with. Files, dates and the
-- rounding of frequencies are parameters.
pub mod Quiet
use Prim.Native.Nat.{◌/◌}
use Prim.Native.String.{◌++◌ as append}
use mathlib.Core.Option
use build_o_tron.Base.{
  ℕ, String, Bool, true, false, Option, none, some, List, [], ◌∷◌, Outcome, ok, err, panic, Action,
  ◌>>=◌, pure, expect, expect_some, expected, ◌=?◌, sort_by_key, sub_u64, decimal, if◌then◌else◌,
}
use build_o_tron.Core.Sql.{Run, Repo, CommitName, stringy, ArtifactRecord}
use build_o_tron.Core.Table.{by_id}
use build_o_tron.Core.Db.{Db, RunRow}
use build_o_tron.Core.DbCtx.Remotes.{queried_repo}
use build_o_tron.Core.DbCtx.Lock.{DbCtx, locked}
use build_o_tron.Core.DbCtx.Artifacts.{artifacts_for_run}
use build_o_tron.Native.Notifier.{and_then}
use build_o_tron.Web.Time.{duration_as_human_string, display_run_time}
use build_o_tron.Web.Index.{concat, link, repo_link, now_shown}
use build_o_tron.Server.Metrics.{summarize_job_metrics, job_metrics_to_html_table}
use build_o_tron.Server.CommitStatus.{
  CommitPage, Lookup, no_remote, no_commit, found, commit_page, status_of, debug_info,
  current_artifacts, recent_artifacts, old_artifacts,
}

-- What the page takes from outside: the clock, a date in RFC 2822, a frequency in GHz, the files by
-- their paths, and the run that SQLite chooses for a host.
pub record World : Type 0 where
  pub now : ℕ
  pub date : ℕ → String
  pub ghz : ℕ → String
  pub size : String → Outcome ℕ
  pub contents : String → Outcome String
  pub choose : RunRow → List RunRow → RunRow

abbrev pub artifact_path : ArtifactRecord → String
artifact_path a = concat ("./artifacts/" ∷ decimal a.run_id ∷ "/" ∷ decimal a.id ∷ [])

abbrev description : String → String → CommitPage → String → String
description owner repo p time = concat (
    "commit "
    ∷ p.short
    ∷ " of "
    ∷ owner
    ∷ "/"
    ∷ repo
    ∷ ", "
    ∷ (status_of p.run.state p.run.build_result).1
    ∷ " after "
    ∷ time
    ∷ [])

-- `head`
unfoldable pub head_html : String → String → CommitPage → String → String → String
unfolding status_of
head_html owner repo p repo_name time = concat (
    "<head>"
    ∷ "<title>ci.butactuallyin.space - "
    ∷ repo_name
    ∷ "</title>"
    ∷ "\n"
    ∷ "<meta property=\"og:type\" content=\"website\">\n"
    ∷ "<meta property=\"og:site_name\" content=\"ci.butactuallyin.space\">\n"
    ∷ concat
        ("<meta property=\"og:url\" content=\"/" ∷ owner ∷ "/" ∷ repo ∷ "/" ∷ p.sha ∷ "\">\n" ∷ [])
    ∷ concat (
        "<meta property=\"og:title\" contents=\"" ∷ owner ∷ "/" ∷ repo ∷ " commit " ∷ p.short
        ∷ "\">" ∷ [])
    ∷ concat
        ("<meta name=\"description\" content=\"" ∷ description owner repo p time ∷ "\"\n>" ∷ [])
    ∷ concat (
        "<meta property=\"og:description\" content=\""
        ∷ description owner repo p time
        ∷ "\"\n>"
        ∷ [])
    ∷ "</head>\n"
    ∷ [])

abbrev aka : Option CommitName → String
aka none = ""
aka (some name) = concat (" aka <b>" ∷ stringy name ∷ "</b>" ∷ [])

abbrev commit_line : String → String → CommitPage → String
commit_line owner repo p = concat (
    "commit: "
    ∷ link (concat ("https://www.github.com/" ∷ owner ∷ "/" ∷ repo ∷ "/commit/" ∷ p.sha ∷ [])) p.sha
    ∷ aka p.name
    ∷ ", run: "
    ∷ decimal p.run.id
    ∷ "\n"
    ∷ [])

abbrev final_line : Option String → String
final_line none = ""
final_line (some desc) = concat ("  description: " ∷ desc ∷ "\n  " ∷ [])

abbrev artifacts_part : String → String
artifacts_part fragment =
    if fragment =? "" then "" else append "    <div>artifacts</div>\n" fragment

-- The page around the fragment of the artifacts and the table of the metrics.
unfoldable pub page_html :
    String → String → CommitPage → String → String → String → Option String → String
unfolding status_of head_html stringy
page_html owner repo p repo_name time fragment metrics = concat (
    "<html>\n"
    ∷ concat ("  " ∷ head_html owner repo p repo_name time ∷ "\n" ∷ [])
    ∷ "  <body>\n"
    ∷ "    <pre>\n"
    ∷ concat ("repo: " ∷ repo_link repo_name ∷ "\n" ∷ [])
    ∷ commit_line owner repo p
    ∷ concat ("status: " ∷ (status_of p.run.state p.run.build_result).0 ∷ " in " ∷ time ∷ "\n" ∷ [])
    ∷ final_line p.run.final_text
    ∷ "deployed: false\n"
    ∷ "    </pre>\n"
    ∷ artifacts_part fragment
    ∷ Option.get_or metrics ""
    ∷ "  </body>\n"
    ∷ "</html>"
    ∷ [])

module _ (w : World) where
  abbrev step_line : ArtifactRecord → String
  step_line a = concat (
      "<div><pre style='display:inline;'>"
      ∷ w.date a.created_time
      ∷ "</pre> step: <pre style='display:inline;'>"
      ∷ a.name
      ∷ "</pre></div>\n"
      ∷ [])

  abbrev time_taken : ArtifactRecord → Outcome String
  time_taken a =
      and_then (sub_u64 (Option.get_or a.completed_time w.now) a.created_time)
        (λ d. ok (duration_as_human_string d))

  abbrev size_line : String → String → String
  size_line size time = concat ("<pre>  " ∷ size ∷ "kb in " ∷ time ∷ " </pre>\n" ∷ [])

  -- The loop over the old artifacts: a file that is gone is a panic.
  unfoldable pub old_artifact : ArtifactRecord → Outcome String
  unfolding duration_as_human_string decimal
  old_artifact a = and_then (time_taken a) λ time.
      and_then (expected "metadata exists" (w.size (artifact_path a)))
        λ n. ok (append (step_line a) (size_line (decimal (n / 1024)) time))

  abbrev size_text : Outcome ℕ → Outcome String
  size_text (ok n) = ok (decimal (n / 1024))
  size_text (err e) = ok (concat ("[" ∷ e ∷ "]" ∷ []))
  size_text (panic e) = panic e

  -- The loop over the recent artifacts: the whole text where the run has failed.
  unfoldable pub recent_artifact : Bool → ArtifactRecord → Outcome String
  unfolding duration_as_human_string decimal
  recent_artifact true a =
      and_then
        (expected "called `Result::unwrap()` on an `Err` value" (w.contents (artifact_path a)))
        λ text. ok (append (step_line a) (concat ("<pre>" ∷ text ∷ "</pre>\n" ∷ [])))
  recent_artifact false a = and_then (time_taken a) λ time.
      and_then (size_text (w.size (artifact_path a)))
        λ size. ok (append (step_line a) (size_line size time))

  unfoldable pub all_artifacts :
      (ArtifactRecord → Outcome String) → List ArtifactRecord → Outcome String
  all_artifacts shown [] = ok ""
  all_artifacts shown (a ∷ as') =
      and_then (shown a) λ text. and_then (all_artifacts shown as') λ rest. ok (append text rest)

  -- `artifacts_fragment`
  unfoldable pub artifacts_fragment : Run → List ArtifactRecord → Outcome String
  unfolding old_artifact recent_artifact all_artifacts debug_info current_artifacts recent_artifacts
      old_artifacts
  artifacts_fragment run rows =
      let complete = Option.get_or run.complete_time w.now in
      let artifacts =
        sort_by_key (λ (a : ArtifactRecord). a.created_time) (current_artifacts w.now run rows) in
      and_then (all_artifacts old_artifact (old_artifacts w.now complete artifacts)) λ old.
        and_then
          (all_artifacts (recent_artifact (debug_info run.state run.build_result))
            (recent_artifacts w.now complete artifacts))
          λ recent. ok (append old recent)

  abbrev pub show_page : String → String → Lookup → Action DbCtx (ℕ × String)
  show_page owner repo no_remote = pure (404, "<html><body>no such remote</body></html>")
  show_page owner repo no_commit = pure (404, "<html><body>no such commit</body></html>")
  show_page owner repo (found p) = do
    named ← queried_repo p.repo_id
    time ← now_shown (display_run_time w.now p.run)
    rows ← expect "called `Result::unwrap()` on an `Err` value" (artifacts_for_run p.run.id none)
    fragment ← now_shown (artifacts_fragment p.run rows)
    metrics ←
        expect "called `Result::unwrap()` on an `Err` value"
          (summarize_job_metrics w.choose p.run.job_id)
    pure (
      200,
      page_html owner repo p named.name time fragment (job_metrics_to_html_table w.ghz metrics),
    )

  -- `handle_commit_status`
  unfoldable pub handle_commit_status : String → String → String → Action DbCtx (ℕ × String)
  unfolding commit_page artifacts_fragment page_html artifacts_for_run summarize_job_metrics
      job_metrics_to_html_table display_run_time
  handle_commit_status owner repo sha = do
    looked_up ← commit_page owner repo sha
    show_page owner repo looked_up
