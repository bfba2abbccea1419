-- ===== src/Tests/Lifecycle.antt =====
-- The theorems on the life of a run at concrete inputs.
use build_o_tron.Base.{
  ℕ, ◌≡◌, ◌≢◌, String, refl, true, false, Option, none, some, List, [], ◌∷◌, ok, arith,
}
use build_o_tron.Core.Protocol.{TaskInfo, ClientProto, task_status}
use build_o_tron.Core.Sql.{TokenValidity}
use build_o_tron.Core.Db.{Db, RunRow, empty_db}
use build_o_tron.Core.DbCtx.Lock.{new}
use build_o_tron.Core.DbCtx.Runs.{run_for_token, set_started, set_reaped, update_run}
use build_o_tron.Core.DbCtx.Runs.Token.{run_for_token-set_started_twice}
use build_o_tron.Driver.Client.{message}
use build_o_tron.Driver.Session.{created}
use build_o_tron.Driver.Session.Recorded.{find_run}
use build_o_tron.Driver.Reaper.{old_task_reaper}
use build_o_tron.Ctl.{job, rerun, create, add, repo}
use build_o_tron.Lifecycle.{Moves}
use build_o_tron.Lifecycle.Invariant.{IsSound}
use build_o_tron.Lifecycle.Ages.{Aged, Interleaving-Aged}
use build_o_tron.Driver.Reaper.Spares.{row_of}
use build_o_tron.Lifecycle.Reaped.{old_task_reaper-reaped}
use build_o_tron.Lifecycle.Methods.Growth.{Grows}
use build_o_tron.Lifecycle.Growth.{Interleaving-Grows}
use build_o_tron.Lifecycle.Events.{Event, activation, said, command, perform}
use build_o_tron.Lifecycle.System.{perform-Moves, start, next, handled, idle}
use build_o_tron.Lifecycle.Reachable.{Reach-IsSound, old_task_reaper-ends, run_for_token-known}
use build_o_tron.Tests.Data.{
  started_ctx, waiting_ctx, started_run, github_works, one_client_job, client_with, open_ctx,
  db_with, waiting_run, one_job, sha,
}

-- A runner reports that its job has passed.
abbrev report : Event
report =
    said github_works one_client_job 9000 (task_status (TaskInfo.finished "pass"))
      (record { active_tasks = 1 ∷ []; notices = []; client = client_with [] [] })

-- A run is queued by hand.
abbrev pub queue_one : Event
queue_one = command github_works "config" (λ s. []) 1000 (job (rerun 1))

-- A repo with a remote, a job of it, and its run handed to a runner.
abbrev pub add_one : Event
add_one =
    command github_works "config" (λ s. []) 1000
      (add (repo "yaxpeax-x86" (some "iximeow/yaxpeax-x86") (some "github") (some "github.json")))

abbrev pub create_one : Event
create_one =
    command github_works "config" (λ s. "github" ∷ "iximeow/yaxpeax-x86" ∷ []) 1000
      (job (create "github:iximeow/yaxpeax-x86" sha "me@iximeow.net"))

abbrev pub activate_one : Event
activate_one =
    activation (λ path. created) 2000 one_job one_client_job.task
      (record {
        active_tasks = [];
        notices = [];
        client = client_with (message ClientProto.started ∷ []) (true ∷ []);
      })

abbrev pub after : Event → Db → Db
after e db = perform e (new db)

perform-Moves_example : Moves started_ctx.db.runs (perform report started_ctx).runs
perform-Moves_example = perform-Moves report started_ctx

Interleaving-Grows_example : Grows started_ctx.db (perform report started_ctx)
Interleaving-Grows_example = Interleaving-Grows (handled {tasks = []} idle report false).1

Interleaving-Aged_example :
    (s : RunRow) × (find_run 1 (perform report started_ctx) ≡ some s) × Aged started_run s
Interleaving-Aged_example =
    Interleaving-Aged 1 started_run (handled {tasks = []} idle report false).1 refl

Reach-IsSound_example : IsSound (perform queue_one (new empty_db)).runs
Reach-IsSound_example = Reach-IsSound (next start queue_one false)

old_task_reaper-ends_example :
    (old_task_reaper [] 900000 (new (perform queue_one (new empty_db)))).0 ≡ ok tt
old_task_reaper-ends_example =
    old_task_reaper-ends [] 900000 (next start queue_one false) (omega arith)

run_for_token-set_started_twice_example :
    (run_for_token 4000 "t" (
      open_ctx (
        update_run 1
          (set_started 3000 2 "dir" "u")
          (update_run 1 (set_started 2000 1 "dir" "t") (db_with waiting_run))))).0
    ≡ ok none
run_for_token-set_started_twice_example =
    run_for_token-set_started_twice waiting_ctx 1 2000 3000 4000 1 2 "dir" "t" "u" refl refl

run_for_token-known_example :
    (◌≢◌ {A = Option String} (some "/root/ixi_ci_server/artifacts/1") none)
    × (TokenValidity.valid ≢ TokenValidity.invalid)
unfolding perform run_for_token build_o_tron.Base.decimal
run_for_token-known_example =
    run_for_token-known {db = after activate_one (after create_one (after add_one empty_db))} 3000
      "secret" 1 (some "/root/ixi_ci_server/artifacts/1") TokenValidity.valid
      (next (next (next start add_one false) create_one false) activate_one false) refl

old_task_reaper-reaped_example :
    row_of 1
      (old_task_reaper [] 900000
        (new (after activate_one (after create_one (after add_one empty_db))))).1.db
    ≡ some (set_reaped started_run)
unfolding perform set_started build_o_tron.Base.decimal
old_task_reaper-reaped_example =
    old_task_reaper-reaped {db = after activate_one (after create_one (after add_one empty_db))} []
      1 900000 started_run
      (next (next (next start add_one false) create_one false) activate_one false) (omega arith)
      refl
