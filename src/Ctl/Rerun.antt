-- ===== src/Ctl/Rerun.antt =====
-- What `ci-ctl job rerun` (ci-ctl/src/main.rs) does to the driver (ci-driver/src/main.rs) when it is
-- given a number that no job has.
use build_o_tron.Base.{ℕ, suc, ◌≡◌, refl, Option, none, List, ◌∷◌, ok, panic, false, true}
use build_o_tron.Core.Sql.{PendingRun}
use build_o_tron.Core.DbCtx.Lock.{DbCtx}
use build_o_tron.Core.DbCtx.Jobs.{find_job, job_by_id}
use build_o_tron.Core.DbCtx.Runs.{new_run}
use build_o_tron.Core.DbCtx.Runs.Queue.{waits, waits-new_run}
use build_o_tron.Driver.Client.{RunnerClient}
use build_o_tron.Driver.FindWork.{first_accepted}
use build_o_tron.Ctl.{rerun_job, done}

-- Over an unpoisoned lock, `rerun` takes the number of no job for a job's id, and the run that it
-- makes waits for every host. Each runner that is offered a run of that job first makes the driver
-- panic, whatever it accepts.
pub rerun_job-panics :
    (now which : ℕ) (host : Option ℕ) (client : RunnerClient) (later : List PendingRun)
    (id created : ℕ) (ctx : DbCtx)
    → ctx.poisoned ≡ false
    → find_job which ctx.db ≡ none
    → let after = rerun_job now which ctx in
      (after.0 ≡ ok done)
      × (waits host (suc ctx.db.runs.seq) after.1.db ≡ true)
      × ((first_accepted client
            (record { id = id; job_id = which; create_time = created } ∷ later)
            after.1).0
          ≡ panic "job exists")
unfolding rerun_job new_run first_accepted job_by_id
rerun_job-panics now which host client later id created ctx p n =
    (rw p refl, rw p ((rw p at (waits-new_run now which host 0 ctx p)).0), rw p (rw n refl))
