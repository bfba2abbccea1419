-- ===== src/Core/DbCtx/Jobs.antt =====
-- The methods of ci-lib-core/src/dbctx.rs on jobs.
pub mod Commits
use build_o_tron.Base.{
  ℕ, ◌*◌, ◌-◌, String, Bool, true, false, ◌&&◌, not, Option, none, some, List, [], ◌∷◌, Outcome, ok,
  err, panic, Action, ◌>>=◌, ◌>>◌, pure, expect, any, first?, last?, select, take, order_desc, ltb,
  ◌==◌, ◌=?◌, holds, if◌then◌else◌, sub_u64,
}
use build_o_tron.Core.Sql.{Job}
use build_o_tron.Core.Table.{Table, insert, next_id, by_id}
use build_o_tron.Core.Db.{Db, RunRow}
use build_o_tron.Core.DbCtx.Lock.{DbCtx, locked}
use build_o_tron.Core.DbCtx.Commits.{new_commit}

-- `JOB_BY_ID`
abbrev pub find_job : ℕ → Db → Option Job
find_job id db = by_id (λ (j : Job). j.id) id db.jobs.rows

unfoldable pub job_by_id : ℕ → Action DbCtx (Option Job)
job_by_id id = locked λ db. (ok (find_job id db), db)

-- `JOB_BY_COMMIT_ID`: the first of the rows.
unfoldable pub job_by_commit_id : ℕ → Action DbCtx (Option Job)
job_by_commit_id commit_id =
    locked λ db. (ok (first? (λ (j : Job). j.commit_id == commit_id) db.jobs.rows), db)

-- The insert of `new_job`.
abbrev pub add_job : ℕ → ℕ → ℕ → Option String → Option String → Action Db ℕ
add_job created remote_id commit_id pusher run_pref db = (
  ok (next_id db.jobs),
  record db {
    jobs =
        insert
          (λ i. record {
            id = i;
            remote_id = remote_id;
            commit_id = commit_id;
            created_time = created;
            source = pusher;
            run_preferences = run_pref;
          })
          db.jobs;
  },
)

-- `new_job` takes the lock twice: for the commit, and again for the job. `now` is the clock.
unfoldable pub new_job : ℕ → ℕ → String → Option String → Option String → Action DbCtx (ℕ × ℕ)
unfolding new_commit
new_job now remote_id sha pusher run_pref = do
  commit_id ← expect "can create commit record" (new_commit sha)
  job_id ← locked (add_job now remote_id commit_id pusher run_pref)
  pure (job_id, commit_id)

-- `LAST_JOBS_FROM_REMOTE`: `… where remote_id=?1 order by created_time desc limit ?2;`
abbrev pub last_jobs_from_remote : ℕ → ℕ → Db → List Job
last_jobs_from_remote id limit db = take limit (
    order_desc (λ (j : Job). some j.created_time)
      (select (λ (j : Job). j.remote_id == id) db.jobs.rows))

unfoldable pub recent_jobs_from_remote : ℕ → ℕ → Action DbCtx (List Job)
recent_jobs_from_remote id limit = locked λ db. (ok (last_jobs_from_remote id limit db), db)

-- `last_job_from_remote`: the last of at most one.
unfoldable pub last_job_from_remote : ℕ → Action DbCtx (Option Job)
unfolding recent_jobs_from_remote
last_job_from_remote id = do jobs ← recent_jobs_from_remote id 1; pure (last? jobs)

-- The `where` of `JOBS_NEEDING_HOST_RUN`.
abbrev pub wants_all : Option String → Bool
wants_all none = false
wants_all (some preference) = preference =? "all"

abbrev pub has_run_on : ℕ → ℕ → List RunRow → Bool
has_run_on job_id host_id runs =
    any (λ (r : RunRow). r.job_id == job_id && holds r.host_id host_id) runs

abbrev pub needs_host_run : ℕ → ℕ → List RunRow → Job → Bool
needs_host_run cutoff host_id runs j =
    wants_all j.run_preferences && ltb cutoff j.created_time && not (has_run_on j.id host_id runs)

-- A day, in milliseconds.
abbrev pub day_ms : ℕ
day_ms = 24 * 3600 * 1000

-- `now_ms() - 24 * 3600 * 1000` comes before the lock is taken.
abbrev pub lift {ℓ} : {S A : Type ℓ} → Outcome A → Action S A
lift r s = (r, s)

unfoldable pub jobs_needing_task_runs_for_host : ℕ → ℕ → Action DbCtx (List Job)
jobs_needing_task_runs_for_host now host_id = do
  cutoff ← lift (sub_u64 now day_ms)
  locked λ db. (ok (select (needs_host_run cutoff host_id db.runs.rows) db.jobs.rows), db)
