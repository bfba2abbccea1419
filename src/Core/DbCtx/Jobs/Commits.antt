-- ===== src/Core/DbCtx/Jobs/Commits.antt =====
-- `new_commit`, `new_job` and `job_for_commit` of ci-lib-core/src/dbctx.rs together.
use text.Mathlib.TextEquality.{eq_iff}
use build_o_tron.Base.{
  ℕ, suc, String, ◌≡◌, Bool, false, Option, some, List, [], ◌∷◌, ◌++◌, ok, any, first?, ◌=?◌, arith,
}
use build_o_tron.Core.Db.{Db, CommitRow}
use build_o_tron.Core.DbCtx.Lock.{DbCtx}
use build_o_tron.Core.DbCtx.Commits.{job_for_commit}
use build_o_tron.Core.DbCtx.Jobs.{new_job}

abbrev pub knows : String → Db → Bool
knows sha db = any (λ (c : CommitRow). c.sha =? sha) db.commits.rows

pub id-append :
    (sha : String) (rows : List CommitRow) (i : ℕ)
    → any (λ (c : CommitRow). c.sha =? sha) rows ≡ false
    → first? (λ (c : CommitRow). c.sha =? sha) (rows ++ (record { id = i; sha = sha } ∷ []))
      ≡ some (record { id = i; sha = sha })
id-append sha [] i e = ground (arith, eq_iff sha sha)
id-append sha (c ∷ rows) i e = ground (arith, id-append sha rows i)

-- For a commit that was not there, over an unpoisoned lock, `new_job` answers with the next id of
-- the jobs and the next id of the commits, and `job_for_commit` then answers with the second: the id
-- of the commit, not of the job.
pub job_for_commit-new_job :
    (now remote_id : ℕ) (sha : String) (pusher pref : Option String) (ctx : DbCtx)
    → ctx.poisoned ≡ false
    → knows sha ctx.db ≡ false
    → let after = new_job now remote_id sha pusher pref ctx in
      (after.0 ≡ ok (suc ctx.db.jobs.seq, suc ctx.db.commits.seq))
      × ((job_for_commit sha after.1).0 ≡ ok (some (suc ctx.db.commits.seq)))
unfolding new_job job_for_commit
job_for_commit-new_job now remote_id sha pusher pref ctx p k =
    (rw p (rw k), rw p (rw k (rw (id-append sha ctx.db.commits.rows (suc ctx.db.commits.seq) k))))
