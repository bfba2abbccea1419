-- ===== src/Lifecycle/Events.antt =====
-- What the processes of the service, ci-web-server, ci-driver and ci-ctl, do on the database that they
-- share, one handler at a time.
use build_o_tron.Base.{ℕ, String, Bool, Option, List}
use build_o_tron.Core.Protocol.{ClientProto}
use build_o_tron.Core.Sql.{Job, PendingRun}
use build_o_tron.Core.Db.{Db}
use build_o_tron.Core.DbCtx.Lock.{DbCtx}
use build_o_tron.Native.Notifier.{Outside}
use build_o_tron.Driver.Client.{RunnerClient, Chunk}
use build_o_tron.Driver.Session.{ClientJob, CreateDir, activate_run, handle}
use build_o_tron.Driver.FindWork.{look}
use build_o_tron.Driver.Reaper.{old_task_reaper}
use build_o_tron.Driver.Api.{
  CreateNew, ArtifactRequest, FirstChunk, handle_artifact, store_done, handle_next_job,
}
use build_o_tron.Base.Header.{Header}
use build_o_tron.Server.Webhook.{Crypto, HookRequest, handle_repo_event}
use build_o_tron.Ctl.{Command, run_command}
use build_o_tron.Lifecycle.Sessions.{Connection, session_of}

-- What may happen next, with all that it depends on besides the database: a request of the webhook,
-- a round of the search for work, an activation, one message of a runner, a turn of the reaper, an
-- artifact, its end, a runner's request for a job, or a command.
pub data Event : Type 0 where
  webhook : Crypto → Outside → String → List String → ℕ → HookRequest → Event
  round : ℕ → RunnerClient → Event
  activation : (String → CreateDir) → ℕ → Job → PendingRun → Connection → Event
  said : Outside → ClientJob → ℕ → ClientProto → Connection → Event
  reaper : List ℕ → ℕ → Event
  artifact : CreateNew → ℕ → ℕ → ArtifactRequest → Event
  stored : ℕ → ℕ → Event
  next_job :
      Option String
      → List RunnerClient
      → Bool
      → Option Header
      → FirstChunk
      → List Chunk
      → List Bool
      → String
      → Event
  command : Outside → String → (String → List String) → ℕ → Command → Event

-- What the event leaves of the database. Each process has a lock of its own, which is poisoned or not.
unfoldable pub perform : Event → DbCtx → Db
unfolding handle_repo_event look activate_run handle old_task_reaper handle_artifact store_done
    handle_next_job run_command
perform (webhook c o config_path psks now r) ctx =
    (handle_repo_event c o config_path psks now r ctx).1.db
perform (round now client) ctx = (look now client ctx).1.db
perform (activation create_dir now job run c) ctx =
    (activate_run create_dir now job run (session_of c ctx)).1.ctx.db
perform (said o job now m c) ctx = (handle o job now m (session_of c ctx)).1.ctx.db
perform (reaper active now) ctx = (old_task_reaper active now ctx).1.db
perform (artifact create checked now r) ctx = (handle_artifact create checked now r ctx).1.db
perform (stored now id) ctx = (store_done now id ctx).1.db
perform (next_job secret waiting gone header body rx tx token) ctx =
    (handle_next_job header body rx tx token (record {
      ctx = ctx;
      auth_secret = secret;
      waiting = waiting;
      receiver_gone = gone;
    })).1.ctx.db
perform (command o config_path split now c) ctx = (run_command o config_path split now c ctx).1.db
