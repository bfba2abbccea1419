-- ===== src/Driver/FindWork.antt =====
-- `find_client_task` of ci-driver/src/main.rs: the loop that looks for a run for one runner.
pub mod Found
use build_o_tron.Base.{
  ℕ, String, Bool, true, false, Option, none, some, List, [], ◌∷◌, Outcome, ok, err, panic, Action,
  ◌>>=◌, ◌>>◌, pure, fail, expect, expect_some, gets, ltb, if◌then◌else◌,
}
use build_o_tron.Core.Sql.{Job, PendingRun}
use build_o_tron.Core.Db.{Db}
use build_o_tron.Core.DbCtx.Lock.{DbCtx}
use build_o_tron.Core.DbCtx.Jobs.{job_by_id, jobs_needing_task_runs_for_host}
use build_o_tron.Core.DbCtx.Runs.{get_pending_runs, new_run}
use build_o_tron.Driver.Client.{RunnerClient, will_accept, test_connection}
use build_o_tron.Driver.Session.{Session, on_db, on_client, CreateDir, activate_run}

-- One round of the loop: the clock, in ms; the seconds since the search began, as read at the end of
-- the round; and what other tasks did to the database while this one slept.
pub record Round : Type 0 where
  pub now : ℕ
  pub elapsed_secs : ℕ
  pub others : Db → Db

abbrev pub Work : Type 0
Work = PendingRun × Job

abbrev pub take_if :
    Bool → PendingRun → Job → Action DbCtx (Option Work) → Action DbCtx (Option Work)
take_if true run job rest = pure (some (run, job))
take_if false run job rest = rest

-- The `for run in runs`: the first run whose job the runner takes. A job that is missing panics.
unfoldable pub first_accepted : RunnerClient → List PendingRun → Action DbCtx (Option Work)
unfolding job_by_id
first_accepted client [] = pure none
first_accepted client (run ∷ runs) =
    let rest = first_accepted client runs in
    do
      row ← job_by_id run.job_id
      job ← expect_some "job exists" row
      take_if (will_accept client job) run job rest

-- The `for job in alt_run_jobs`: a new run of the first job that the runner takes.
unfoldable pub first_rerun : ℕ → RunnerClient → List Job → Action DbCtx (Option Work)
unfolding new_run
first_rerun now client [] = pure none
first_rerun now client (job ∷ jobs) =
    let rest = first_rerun now client jobs in
    if will_accept client job
    then (do run ← new_run now job.id (some client.host_id); pure (some (run, job)))
    else rest

abbrev pub or_rerun : ℕ → RunnerClient → Option Work → Action DbCtx (Option Work)
or_rerun now client (some work) = pure (some work)
or_rerun now client none = do
  jobs ← expect "can query" (jobs_needing_task_runs_for_host now client.host_id)
  first_rerun now client jobs

-- A round, up to the sleep: pending runs first, then jobs that this host has not run.
unfoldable pub look : ℕ → RunnerClient → Action DbCtx (Option Work)
unfolding first_accepted first_rerun get_pending_runs jobs_needing_task_runs_for_host
look now client = do
  runs ← get_pending_runs (some client.host_id)
  found ← first_accepted client runs
  or_rerun now client found

abbrev lost : {A : Type 0} → Outcome A → Outcome A
lost (ok a) = ok a
lost (err e) = err "lost client connection"
lost (panic e) = panic e

abbrev pub lost_if_err : {A : Type 0} → Action Session A → Action Session A
lost_if_err m s = let (r, s') = m s in (lost r, s')

abbrev pub interfere : (Db → Db) → Action Session (Unit {0})
interfere f s = (ok tt, record s { ctx = record s.ctx { db = f s.ctx.db } })

abbrev pub deadline : ℕ → Action Session (Option Work) → Action Session (Option Work)
deadline secs rest = if ltb 300 secs then fail "5min new task deadline elapsed" else rest

abbrev pub sleep_and_retry :
    Round → Action Session (Option Work) → Option Work → Action Session (Option Work)
sleep_and_retry round rest (some work) = pure (some work)
sleep_and_retry round rest none = do
  interfere round.others
  lost_if_err (on_client test_connection)
  deadline round.elapsed_secs rest

-- The `'find_work: loop`, over the rounds to come. `ok none` is no answer of the code: it says that
-- the list of rounds ended first.
unfoldable pub find_work : List Round → Action Session (Option Work)
unfolding look test_connection
find_work [] = pure none
find_work (round ∷ rounds) =
    let rest = find_work rounds in
    do
      client ← gets (λ s. s.client)
      found ← on_db (look round.now client)
      sleep_and_retry round rest found

abbrev activate_found : (String → CreateDir) → ℕ → Option Work → Action Session (Unit {0})
activate_found create_dir now none = pure tt
activate_found create_dir now (some (run, job)) = activate_run create_dir now job run

-- `find_client_task`; `now` is the clock when a run is activated.
unfoldable pub find_client_task : (String → CreateDir) → ℕ → List Round → Action Session (Unit {0})
unfolding find_work activate_run
find_client_task create_dir now rounds = do
  found ← find_work rounds
  activate_found create_dir now found
