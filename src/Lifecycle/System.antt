-- ===== src/Lifecycle/System.antt =====
-- The processes of the service on the database that they share: handlers are begun at any time, and
-- what one does with the lock taken may come between any two takings of the lock by others.
use build_o_tron.Base.{◌≡◌, ap, Bool, List, [], ◌∷◌, ◌++◌}
use build_o_tron.Core.Table.{empty}
use build_o_tron.Core.Db.{Db, empty_db}
use build_o_tron.Core.DbCtx.Lock.{DbCtx}
use build_o_tron.Lifecycle.{Moves, unmoved}
use build_o_tron.Lifecycle.Methods.{Method, run_method, Respects}
use build_o_tron.Lifecycle.Methods.Runs.{RunsMove, run_method-Moves, Moves-trans}
use build_o_tron.Lifecycle.Program.{Program, ended, locks, alone, run}
use build_o_tron.Lifecycle.Events.{
  Event, webhook, round, activation, said, reaper, artifact, stored, next_job, command, perform,
}
use build_o_tron.Lifecycle.Sessions.{activate_run-Stepwise, handle-Stepwise}
use build_o_tron.Lifecycle.Driver.{
  look-Stepwise, old_task_reaper-Stepwise, handle_artifact-Stepwise, store_done-Stepwise,
  handle_next_job-Stepwise,
}
use build_o_tron.Lifecycle.Requests.{handle_repo_event-Stepwise}
use build_o_tron.Lifecycle.Commands.{run_command-Stepwise}

-- A handler that has begun: what is left of it, and what it has of its own.
pub data Task : Type 1 where
  task : {P A : Type 0} → Program P A → P → Task

-- One step of a task: at most one taking of the lock. A task that has ended does nothing.
abbrev pub step : Task → DbCtx → Task × DbCtx
step (task (ended r) p) ctx = (task (ended r) p, ctx)
step (task (locks m k) p) ctx = let (r, ctx') = run_method m ctx in (task (k r) p, ctx')
step (task (alone m k) p) ctx = let (r, p') = m p in (task (k r) p', ctx)

-- All of a task's steps, without a pause.
abbrev pub finish : Task → DbCtx → DbCtx
finish (task q p) ctx = (run q p ctx).2

-- The task that handles an event.
unfoldable pub task_of : Event → Task
task_of (webhook c o config_path psks now r) =
    task (handle_repo_event-Stepwise c o config_path psks now r).program tt
task_of (round now client) = task (look-Stepwise now client).program tt
task_of (activation create_dir now job run c) =
    task (activate_run-Stepwise create_dir now job run).program c
task_of (said o job now m c) = task (handle-Stepwise o job now m).program c
task_of (reaper active now) = task (old_task_reaper-Stepwise active now).program tt
task_of (artifact create checked now r) =
    task (handle_artifact-Stepwise create checked now r).program tt
task_of (stored now id) = task (store_done-Stepwise now id).program tt
task_of (next_job secret waiting gone header body rx tx token) =
    task (handle_next_job-Stepwise header body rx tx token).program
      (record { auth_secret = secret; waiting = waiting; receiver_gone = gone })
task_of (command o config_path split now c) =
    task (run_command-Stepwise o config_path split now c).program tt

-- The task of an event, run without a pause, is its handler.
pub perform-task_of : (e : Event) (ctx : DbCtx) → perform e ctx ≡ (finish (task_of e) ctx).db
unfolding perform task_of
perform-task_of (webhook c o config_path psks now r) ctx =
    ap (λ x. x.1.db) ((handle_repo_event-Stepwise c o config_path psks now r).same tt ctx)
perform-task_of (round now client) ctx = ap (λ x. x.1.db) ((look-Stepwise now client).same tt ctx)
perform-task_of (activation create_dir now job run c) ctx =
    ap (λ x. x.1.ctx.db) ((activate_run-Stepwise create_dir now job run).same c ctx)
perform-task_of (said o job now m c) ctx =
    ap (λ x. x.1.ctx.db) ((handle-Stepwise o job now m).same c ctx)
perform-task_of (reaper active now) ctx =
    ap (λ x. x.1.db) ((old_task_reaper-Stepwise active now).same tt ctx)
perform-task_of (artifact create checked now r) ctx =
    ap (λ x. x.1.db) ((handle_artifact-Stepwise create checked now r).same tt ctx)
perform-task_of (stored now id) ctx = ap (λ x. x.1.db) ((store_done-Stepwise now id).same tt ctx)
perform-task_of (next_job secret waiting gone header body rx tx token) ctx =
    ap (λ x. x.1.ctx.db)
      ((handle_next_job-Stepwise header body rx tx token).same
        (record { auth_secret = secret; waiting = waiting; receiver_gone = gone }) ctx)
perform-task_of (command o config_path split now c) ctx =
    ap (λ x. x.1.db) ((run_command-Stepwise o config_path split now c).same tt ctx)

-- How the service comes from a database and the tasks on it to another: tasks are begun, and take
-- their steps in any order. Each process has a lock of its own, which is poisoned or not.
pub data Interleaving (db : Db) (tasks : List Task) : Db → List Task → Type 1 where
  idle : Interleaving db tasks db tasks
  spawned :
      {later : Db} {now : List Task}
      → Interleaving db tasks later now
      → (e : Event) → Interleaving db tasks later (task_of e ∷ now)
  stepped :
      {later : Db} (before after : List Task) (t : Task)
      → Interleaving db tasks later (before ++ (t ∷ after))
      → (poisoned : Bool)
      → Interleaving db tasks
          (step t (record { db = later; poisoned = poisoned })).1.db
          (before ++ ((step t (record { db = later; poisoned = poisoned })).0 ∷ after))

-- What each method keeps to, the service keeps to, however its tasks come between each other.
module _ (R : Db → Db → Type 0) (same : (db : Db) → R db db)
    (chain : (a b c : Db) → R a b → R b c → R a c)
    (each : (B : Type 0) (m : Method B) → Respects R (run_method m)) where
  step-Respects : (t : Task) (ctx : DbCtx) → R ctx.db (step t ctx).1.db
  step-Respects (task (ended r) p) ctx = same ctx.db
  step-Respects (task (locks m k) p) ctx = (each _ m).made ctx
  step-Respects (task (alone m k) p) ctx = same ctx.db

  pub Interleaving-Respects :
      {db : Db} {tasks : List Task} {later : Db} {now : List Task}
      → Interleaving db tasks later now
      → R db later
  Interleaving-Respects {db} idle = same db
  Interleaving-Respects (spawned i e) = Interleaving-Respects i
  Interleaving-Respects (stepped {later} before after t i poisoned) =
      chain _ _ _ (Interleaving-Respects i)
        (step-Respects t (record { db = later; poisoned = poisoned }))

pub Interleaving-Moves :
    {db : Db} {tasks : List Task} {later : Db} {now : List Task}
    → Interleaving db tasks later now
    → Moves db.runs later.runs
Interleaving-Moves i =
    Interleaving-Respects RunsMove (λ db. unmoved) (λ _ _ _ ms ns. Moves-trans ms ns)
      (λ _ m. run_method-Moves m) i

-- The databases that the service can come to, from one without a row.
abbrev pub Reach : Db → Type 1
Reach db = (tasks : List Task) × Interleaving empty_db [] db tasks

-- The runs of a reachable database come of moves from the empty table.
pub Reach-Moves : {db : Db} → Reach db → Moves empty db.runs
Reach-Moves (tasks, i) = Interleaving-Moves i

run-Interleaving :
    {P A : Type 0} {db : Db} {tasks : List Task} (q : Program P A) (p : P) (others : List Task)
    (ctx : DbCtx)
    → Interleaving db tasks ctx.db (task q p ∷ others)
    → (now : List Task) × Interleaving db tasks (run q p ctx).2.db now
run-Interleaving (ended r) p others ctx i = (_, i)
run-Interleaving (locks m k) p others ctx i =
    run-Interleaving (k (run_method m ctx).0) p others (run_method m ctx).1
      (stepped [] others (task (locks m k) p) i ctx.poisoned)
run-Interleaving (alone m k) p others ctx i =
    run-Interleaving (k (m p).0) (m p).1 others ctx
      (stepped [] others (task (alone m k) p) i ctx.poisoned)

finish-Interleaving :
    {db : Db} {tasks : List Task} (t : Task) (others : List Task) (ctx : DbCtx)
    → Interleaving db tasks ctx.db (t ∷ others)
    → (now : List Task) × Interleaving db tasks (finish t ctx).db now
finish-Interleaving (task q p) others ctx i = run-Interleaving q p others ctx i

-- A handler that nothing comes between is one of the ways on.
pub handled :
    {db : Db} {tasks : List Task} {later : Db} {now : List Task}
    → Interleaving db tasks later now
    → (e : Event) (poisoned : Bool)
    → (next : List Task) × Interleaving db tasks
        (perform e (record { db = later; poisoned = poisoned }))
        next
handled {later} {now} i e poisoned =
    rw perform-task_of (
      finish-Interleaving (task_of e) now (record { db = later; poisoned = poisoned })
        (spawned i e))

-- Whatever happens, and however it ends, the table of runs changes only by moves of the
-- specification: runs are queued, started, completed with a verdict, and reaped.
pub perform-Moves : (e : Event) (ctx : DbCtx) → Moves ctx.db.runs (perform e ctx).runs
perform-Moves e ctx = Interleaving-Moves (handled {tasks = []} idle e ctx.poisoned).1

pub start : Reach empty_db
start = ([], idle)

pub next :
    {db : Db}
    → Reach db
    → (e : Event) (poisoned : Bool) → Reach (perform e (record { db = db; poisoned = poisoned }))
next (tasks, i) e poisoned = handled i e poisoned
