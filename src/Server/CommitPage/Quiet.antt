-- ===== src/Server/CommitPage/Quiet.antt =====
-- When the page of a commit shows what the artifacts hold (`handle_commit_status`,
-- ci-web-server/src/main.rs).
use mathlib.Core.Path.{fun_ext}
use build_o_tron.Base.{
  ℕ, ◌≢◌, Option, none, some, Bool-cases, inl, inr, ◌==◌, ==_iff, String, ◌≡◌, refl, ap, false,
  List, [], ◌∷◌, Outcome, ok,
}
use build_o_tron.Core.Sql.{RunState, JobResult, job_result_code, Run, ArtifactRecord}
use build_o_tron.Core.DbCtx.Lock.{DbCtx}
use build_o_tron.Server.CommitStatus.{CommitPage, found, commit_page, debug_info}
use build_o_tron.Server.CommitPage.{
  World, recent_artifact, old_artifact, all_artifacts, artifacts_fragment, handle_commit_status,
  show_page,
}

-- The same surroundings, with other texts in the files.
abbrev pub rewritten : World → (String → Outcome String) → World
rewritten w contents = record w { contents = contents }

recent-rewritten :
    (w : World) (contents : String → Outcome String) (rows : List ArtifactRecord)
    → all_artifacts (rewritten w contents) (recent_artifact (rewritten w contents) false) rows
      ≡ all_artifacts w (recent_artifact w false) rows
unfolding all_artifacts recent_artifact
recent-rewritten w contents [] = refl
recent-rewritten w contents (a ∷ rows) = rw (recent-rewritten w contents rows) refl

old-rewritten :
    (w : World) (contents : String → Outcome String) (rows : List ArtifactRecord)
    → all_artifacts (rewritten w contents) (old_artifact (rewritten w contents)) rows
      ≡ all_artifacts w (old_artifact w) rows
unfolding all_artifacts old_artifact
old-rewritten w contents [] = refl
old-rewritten w contents (a ∷ rows) = rw (old-rewritten w contents rows) refl

fragment-rewritten :
    (w : World) (contents : String → Outcome String) (run : Run) (rows : List ArtifactRecord)
    → debug_info run.state run.build_result ≡ false
    → artifacts_fragment (rewritten w contents) run rows ≡ artifacts_fragment w run rows
unfolding artifacts_fragment
fragment-rewritten w contents run rows h =
    rw h (rw (old-rewritten w contents _) (rw (recent-rewritten w contents _) refl))

show_page-rewritten :
    (w : World) (contents : String → Outcome String) (owner repo : String) (p : CommitPage)
    → debug_info p.run.state p.run.build_result ≡ false
    → show_page (rewritten w contents) owner repo (found p) ≡ show_page w owner repo (found p)
show_page-rewritten w contents owner repo p h =
    let e = fun_ext (λ rows. fragment-rewritten w contents p.run rows h) in rw e refl

quiet :
    (state : RunState) (result : Option ℕ)
    → state ≢ RunState.error
    → (state ≡ RunState.finished → result ≢ some (job_result_code JobResult.fail))
    → debug_info state result ≡ false
unfolding debug_info
quiet RunState.pending result e f = refl
quiet RunState.started result e f = refl
quiet RunState.invalid result e f = refl
quiet RunState.error result e f = absurd (e refl)
quiet RunState.finished none e f = refl
quiet RunState.finished (some n) e f = elim (Bool-cases (n == 1)) [
  | inl y ↦ let z : n ≡ 1 = (==_iff n 1).0 y in absurd (f refl (ap some z))
  | inr e1 ↦ rw e1 refl
]

-- Where the run of the page is not in error, and did not finish with the result `Fail`, the page is
-- the same whatever texts the files of the artifacts hold, their sizes being the same.
pub handle_commit_status-rewritten :
    (w : World) (contents : String → Outcome String) (owner repo sha : String) (ctx : DbCtx)
    (p : CommitPage)
    → (commit_page owner repo sha ctx).0 ≡ ok (found p)
    → p.run.state ≢ RunState.error
    → (p.run.state ≡ RunState.finished → p.run.build_result ≢ some (job_result_code JobResult.fail))
    → handle_commit_status (rewritten w contents) owner repo sha ctx
      ≡ handle_commit_status w owner repo sha ctx
unfolding handle_commit_status
handle_commit_status-rewritten w contents owner repo sha ctx p e no_error no_fail =
    let h = quiet p.run.state p.run.build_result no_error no_fail in
    let k = show_page-rewritten w contents owner repo p h in
    rw e (ap (λ f. f (commit_page owner repo sha ctx).1) k)
