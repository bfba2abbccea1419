-- ===== src/Driver/Session/Recorded.antt =====
-- What the driver records of a finished task (`ClientJob::run`, ci-driver/src/main.rs).
use text.Mathlib.TextEquality.{eq_iff}
use build_o_tron.Base.{
  ℕ, ◌≡◌, ◌↔◌, refl, false, Option, List, [], ◌∷◌, Outcome, ok, err, panic, ◌==◌, Bool-cases, inl,
  inr, arith, select, Option-cases, Outcome-cases, Action, continue,
}
use build_o_tron.Core.Protocol.{TaskInfo}
use build_o_tron.Core.Sql.{Remote, RunState, JobResult}
use build_o_tron.Core.Table.{by_id}
use build_o_tron.Core.Db.{Db, RunRow}
use build_o_tron.Core.DbCtx.Runs.{update_run, set_completed}
use build_o_tron.Core.DbCtx.Jobs.{find_job}
use build_o_tron.Core.DbCtx.Remotes.{find_remote}
use build_o_tron.Native.Notifier.{
  notifiers_of, Outside, RemoteNotifier, JobOutcome, text_of, tell_complete_job,
}
use build_o_tron.Driver.Session.{
  Session, ClientJob, verdict, result_of, record_result, notify_all, complete, on_db, keep_going,
}

abbrev pub find_run : ℕ → Db → Option RunRow
find_run id db = by_id (λ (r : RunRow). r.id) id db.runs.rows

-- The status "pass" alone makes a run `Finished`, with the result `Pass`; every other status, and
-- every interruption, makes it `Error`, with the result `Fail`.
pub verdict_agrees :
    (info : TaskInfo)
    → let (told, state) = verdict info in
      ((state ≡ RunState.finished) ↔ (info ≡ TaskInfo.finished "pass"))
      × ((state ≡ RunState.finished) ↔ (result_of told ≡ JobResult.pass))
      × ((state ≡ RunState.error) ↔ (result_of told ≡ JobResult.fail))
unfolding verdict
verdict_agrees (TaskInfo.finished status) = (
  (λ h. ground (arith, eq_iff status "pass"), λ h. ground (arith, eq_iff status "pass")),
  (λ h. ground arith, λ h. ground arith),
  (λ h. ground arith, λ h. ground arith),
)
verdict_agrees (TaskInfo.interrupted status description) =
    ((λ h. cc, λ h. cc), (λ h. cc, λ h. cc), (λ h. refl, λ h. refl))

after-ctx :
    (r : Outcome (Unit {0})) (k : Action Session (Unit {0})) (s : Session)
    → (k s).1.ctx ≡ s.ctx
    → (continue r (λ _. k) s).1.ctx ≡ s.ctx
after-ctx (ok u) k s e = e
after-ctx (err x) k s e = refl
after-ctx (panic x) k s e = refl

module _ (o : Outside) (job : ClientJob) where
  notify_all-ctx :
      (told : JobOutcome) (ns : List RemoteNotifier) (s : Session)
      → (notify_all o job told ns s).1.ctx ≡ s.ctx
  unfolding notify_all
  notify_all-ctx told [] s = refl
  notify_all-ctx told (n ∷ ns) s =
      after-ctx (keep_going o job (tell_complete_job o n job.sha told)) (notify_all o job told ns) _
        (notify_all-ctx told ns _)

  -- The end of `complete`, when the notices are sent: a notice that panics leaves the run as it is.
  tail-recorded :
      (now : ℕ) (told : JobOutcome) (state : RunState) (r : Outcome (Unit {0})) (s t : Session)
      → s.ctx ≡ record { db = t.ctx.db; poisoned = false }
      → (continue r (λ _. on_db (record_result now job.task.id told state)) s).0 ≡ ok tt
      → (continue r (λ _. on_db (record_result now job.task.id told state)) s).1.ctx.db
        ≡ update_run job.task.id (set_completed now state (result_of told) (text_of told)) t.ctx.db
  unfolding record_result
  tail-recorded now told state (ok u) s t e h = rw e refl
  tail-recorded now told state (err x) s t e h = cc
  tail-recorded now told state (panic x) s t e h = cc

  -- Where a task's status is handled without a panic, the row of its run is as it was but for the
  -- completion's time, the state, the result and the text, which are those of the verdict.
  pub complete-recorded :
      (now : ℕ) (info : TaskInfo) (s : Session)
      → (complete o job now info s).0 ≡ ok tt
      → let (told, state) = verdict info in
        (complete o job now info s).1.ctx.db
        ≡ update_run job.task.id (set_completed now state (result_of told) (text_of told)) s.ctx.db
  unfolding complete
  complete-recorded now info s h = elim (Bool-cases s.ctx.poisoned) [
    | inl p ↦ let k : panic "PoisonError" ≡ ok tt = rw p at h in cc k
    | inr p ↦ elim (Option-cases (find_job job.task.job_id s.ctx.db)) [
      | inl n ↦ let k : panic "job exists" ≡ ok tt = rw n at (rw p at h) in cc k
      | inr (j, e) ↦ elim (Option-cases (find_remote j.remote_id s.ctx.db)) [
        | inl n ↦ let k : panic "remote exists" ≡ ok tt = rw n at (rw e at (rw p at h)) in cc k
        | inr (r, f) ↦
            elim (Outcome-cases (
              notifiers_of o job.config_path
                (select (λ (q : Remote). q.repo_id == r.repo_id) s.ctx.db.remotes.rows))) [
                  | inl (ns, g) ↦ rw p (
                      rw e (
                        rw f (
                          rw g (
                            tail-recorded now (verdict info).0 (verdict info).1
                              (notify_all o job (verdict info).0 ns
                                (record s { ctx = record { db = s.ctx.db; poisoned = false } })).0
                              (notify_all o job (verdict info).0 ns
                                (record s { ctx = record { db = s.ctx.db; poisoned = false } })).1
                              s
                              (notify_all-ctx (verdict info).0 ns
                                (record s { ctx = record { db = s.ctx.db; poisoned = false } }))
                              (rw g at (rw f at (rw e at (rw p at h))))))))
                  | inr (inl (x, g)) ↦
                      let k : panic "can get notifiers" ≡ ok tt =
                        rw g at (rw f at (rw e at (rw p at h))) in
                      cc k
                  | inr (inr (x, g)) ↦
                      let k : panic x ≡ ok tt = rw g at (rw f at (rw e at (rw p at h))) in cc k
                ]
      ]
    ]
  ]
