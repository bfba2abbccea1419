-- ===== src/Tests/Driver.antt =====
-- The theorems on ci-driver and ci-ctl at concrete inputs.
use build_o_tron.Base.{false, length, ◌<◌, ◌≡◌, ◌≢◌, refl, true, none, some, [], ◌∷◌, ok, panic}
use build_o_tron.Core.Protocol.{TaskInfo, ClientProto, new_task_please}
use build_o_tron.Core.Sql.{Run, RunState, JobResult}
use build_o_tron.Core.DbCtx.Runs.{update_run, set_completed}
use build_o_tron.Core.DbCtx.Runs.Queue.{waits}
use build_o_tron.Driver.Client.{message, will_accept}
use build_o_tron.Driver.Session.{verdict, complete}
use build_o_tron.Driver.Session.Recorded.{complete-recorded}
use build_o_tron.Driver.FindWork.{Round, find_work, look, first_accepted}
use build_o_tron.Driver.FindWork.Found.{Suits, find_work-Suits, find_work-ends}
use build_o_tron.Driver.Api.{
  channel_capacity, ArtifactRequest, Lobby, request, handle_artifact, authorized, handle_next_job,
  reserve_artifact,
}
use build_o_tron.Base.Header.{Header, text}
use build_o_tron.Driver.Api.Guards.{IsEntitled, handle_artifact-IsEntitled, handle_next_job-admits}
use build_o_tron.Ctl.{rerun_job, done}
use build_o_tron.Ctl.Rerun.{rerun_job-panics}
use build_o_tron.Tests.Data.{
  started_ctx, waiting_ctx, github_works, session_with, one_client_job, one_job, client_with, host,
}

abbrev passed : TaskInfo
passed = TaskInfo.finished "pass"

complete-recorded_example :
    (complete github_works one_client_job 9000 passed (session_with started_ctx [] [])).1.ctx.db
    ≡ update_run 1 (set_completed 9000 RunState.finished JobResult.pass "success") started_ctx.db
unfolding complete verdict build_o_tron.Native.Notifier.notifier_of
    build_o_tron.Native.Notifier.tell_complete_job
complete-recorded_example =
    complete-recorded github_works one_client_job 9000 passed (session_with started_ctx [] []) refl

abbrev first_round : Round
first_round = record { now = 100000000; elapsed_secs = 0; others = λ db. db }

abbrev last_round : Round
last_round = record { now = 100000000; elapsed_secs = 301; others = λ db. db }

find_work-Suits_example :
    Suits (client_with [] []) (record { id = 1; job_id = 1; create_time = 1000 }, one_job)
unfolding find_work look will_accept
find_work-Suits_example =
    find_work-Suits (first_round ∷ []) (session_with waiting_ctx [] [])
      (record { id = 1; job_id = 1; create_time = 1000 }, one_job) refl

find_work-ends_example :
    (find_work
      (first_round ∷ last_round ∷ [])
      (session_with started_ctx (message ClientProto.pong ∷ []) (true ∷ []))).0
    ≢ ok none
find_work-ends_example =
    find_work-ends (first_round ∷ last_round ∷ [])
      (session_with started_ctx (message ClientProto.pong ∷ []) (true ∷ [])) refl

abbrev artifact_request : ArtifactRequest
artifact_request = record {
  task_token = some (text "secret");
  artifact_name = some (text "log");
  artifact_desc = some (text "the log");
}

handle_artifact-IsEntitled_example : IsEntitled 3000 artifact_request started_ctx
unfolding handle_artifact reserve_artifact
handle_artifact-IsEntitled_example =
    handle_artifact-IsEntitled (λ run id. ok tt) 3000 3001 artifact_request started_ctx refl

abbrev active_run : Run
active_run = record {
  id = 1;
  job_id = 1;
  artifacts_path = some "/root/ixi_ci_server/artifacts/1";
  state = RunState.started;
  host_id = some 1;
  create_time = 1000;
  start_time = some 2000;
  complete_time = none;
  build_token = some "secret";
  run_timeout = none;
  build_result = none;
  final_text = none;
}

abbrev lobby : Lobby
lobby = record {
  ctx = started_ctx;
  auth_secret = some "hunter2";
  waiting = [];
  receiver_gone = false;
}

handle_next_job-admits_example :
    let after =
      handle_next_job
        (some (text "hunter2"))
        (request (new_task_please none (host 1)))
        []
        []
        "t"
        lobby in
    ((h : Header) × (some (text "hunter2") ≡ some h) × (authorized (some "hunter2") h ≡ true))
    × (0 < channel_capacity)
    × (length after.1.waiting ≡ 1)
unfolding handle_next_job
handle_next_job-admits_example =
    handle_next_job-admits (some (text "hunter2")) (request (new_task_please none (host 1))) [] []
      "t" lobby refl

rerun_job-panics_example :
    let after = rerun_job 3000 99 started_ctx in
    (after.0 ≡ ok done)
    × (waits (some 1) 2 after.1.db ≡ true)
    × ((first_accepted
          (client_with [] [])
          (record { id = 2; job_id = 99; create_time = 3000 } ∷ [])
          after.1).0
        ≡ panic "job exists")
rerun_job-panics_example =
    rerun_job-panics 3000 99 (some 1) (client_with [] []) [] 2 3000 started_ctx refl refl
