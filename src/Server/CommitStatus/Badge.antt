-- ===== src/Server/CommitStatus/Badge.antt =====
-- What the page of a commit says of its run, and of the run's artifacts (`handle_commit_status`,
-- ci-web-server/src/main.rs).
use mathlib.Core.Option
use build_o_tron.Base.{
  ℕ, ◌+◌, String, ◌≡◌, ◌=?◌, ◌||◌, refl, inl, inr, Bool, true, false, Option, none, some, List, [],
  ◌∷◌, length, Bool-cases, leb, ltb, arith,
}
use build_o_tron.Core.Sql.{RunState, JobResult, job_result_code, ArtifactRecord}
use build_o_tron.Server.CommitStatus.{
  status_of, debug_info, diff_times, recent_artifacts, old_artifacts,
}

-- The results that the driver records.
abbrev code_of : Option JobResult → Option ℕ
code_of result = Option.map job_result_code result

abbrev pub says_failed : String → Bool
says_failed text = text =? "❌ failed" || text =? "🧯 error, uncompleted"

-- For a result that the driver records, the recent artifacts are shown in full exactly where the page
-- says that the run failed or that it was in error.
pub debug_info-status_of :
    (state : RunState) (result : Option JobResult)
    → debug_info state (code_of result) ≡ says_failed (status_of state (code_of result)).1
unfolding debug_info status_of job_result_code
debug_info-status_of RunState.error result = refl
debug_info-status_of RunState.finished (some JobResult.fail) = refl
debug_info-status_of RunState.finished (some JobResult.pass) = refl
debug_info-status_of RunState.finished none = refl
debug_info-status_of RunState.pending result = refl
debug_info-status_of RunState.started result = refl
debug_info-status_of RunState.invalid result = refl

-- The recent and the old artifacts of a run are together as many as its artifacts.
pub recent-old_artifacts :
    (now complete : ℕ) (artifacts : List ArtifactRecord)
    → length (recent_artifacts now complete artifacts)
        + length (old_artifacts now complete artifacts)
      ≡ length artifacts
unfolding recent_artifacts old_artifacts
recent-old_artifacts now complete [] = refl
recent-old_artifacts now complete (a ∷ artifacts) =
    elim (Bool-cases (leb (diff_times now complete a.completed_time) 60000)) [
      | inl e ↦
          let n : ltb 60000 (diff_times now complete a.completed_time) ≡ false = ground arith in
          rw e (rw n (omega (arith, recent-old_artifacts now complete artifacts)))
      | inr e ↦
          let n : ltb 60000 (diff_times now complete a.completed_time) ≡ true = ground arith in
          rw e (rw n (omega (arith, recent-old_artifacts now complete artifacts)))
    ]
