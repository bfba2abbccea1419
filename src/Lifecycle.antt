-- ===== src/Lifecycle.antt =====
-- What the program may do to its runs, apart from how it comes to do it: the abstract specification
-- that the statements of ci-lib-core/src/dbctx.rs and of ci-driver/src/main.rs on the table `runs`
-- leave to the handlers.
pub mod Methods
pub mod Program
pub mod Stepwise
pub mod Ages
pub mod Commands
pub mod Database
pub mod Driver
pub mod Reachable
pub mod Requests
pub mod Invariant
pub mod Sessions
pub mod Events
pub mod Schema
pub mod System
pub mod Reaped
pub mod Queue
pub mod Growth
use build_o_tron.Base.{ℕ, String, Option}
use build_o_tron.Core.Protocol.{TaskInfo}
use build_o_tron.Core.Table.{Table, insert, update_where}
use build_o_tron.Core.Db.{RunRow}
use build_o_tron.Core.DbCtx.Runs.{fresh_run, set_started, set_completed, set_reaped}
use build_o_tron.Core.DbCtx.Runs.Queue.{is_run}
use build_o_tron.Native.Notifier.{text_of}
use build_o_tron.Driver.Session.{verdict, result_of}

-- One move of the table of runs: a run is queued for a job, started by a runner, completed with the
-- verdict on a status, or reaped.
pub data Move : Table RunRow → Table RunRow → Type 0 where
  queued :
      {t : Table RunRow} (now job_id : ℕ) (host : Option ℕ)
      → Move t (insert (fresh_run now job_id host) t)
  started :
      {t : Table RunRow} (id now host_id : ℕ) (path token : String)
      → Move t (update_where (is_run id) (set_started now host_id path token) t)
  completed :
      {t : Table RunRow} (id now : ℕ) (info : TaskInfo)
      → Move t (
          update_where
            (is_run id)
            (set_completed now
              (verdict info).1
              (result_of (verdict info).0)
              (text_of (verdict info).0))
            t)
  reaped : {t : Table RunRow} (id : ℕ) → Move t (update_where (is_run id) set_reaped t)

infixr 20 ◌then◌
pub data Moves : Table RunRow → Table RunRow → Type 0 where
  unmoved : {t : Table RunRow} → Moves t t
  ◌then◌ : {t u v : Table RunRow} → Move t u → Moves u v → Moves t v
