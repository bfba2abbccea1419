-- ===== src/Lifecycle/Sessions.antt =====
-- The driver's handlers of a runner (ci-driver/src/main.rs) pause at each taking of the lock.
use build_o_tron.Base.{
  ℕ, String, Bool, true, false, Option, none, some, List, [], ◌∷◌, ok, Action, gets, refl, ◌∙◌, ap,
  sym,
}
use build_o_tron.Core.Protocol.{ClientProto, TaskInfo}
use build_o_tron.Core.Sql.{Job, Remote, Repo, PendingRun}
use build_o_tron.Core.DbCtx.Lock.{DbCtx}
use build_o_tron.Core.DbCtx.Jobs.{job_by_id}
use build_o_tron.Core.DbCtx.Remotes.{remote_by_id, repo_by_id, repo_id_by_remote}
use build_o_tron.Native.Notifier.{Outside, RemoteNotifier, JobOutcome, tell_complete_job}
use build_o_tron.Driver.Client.{RunnerClient, Chunk, send, object_id, offer}
use build_o_tron.Driver.Session.{
  Session, ClientJob, CreateDir, on_db, on_client, submit, mark_if, record_start, activate_run,
  verdict, record_result, notify_all, Notice, submitted, submit_failed, keep_going, notify,
  complete, handle, serve, proceed, respond,
}
use build_o_tron.Lifecycle.Database.{
  commit_sha-Stepwise, insert_metric-Stepwise, notifiers_by_repo-Stepwise,
}
use build_o_tron.Lifecycle.Methods.{run_method, start_run, finish_run}
use build_o_tron.Lifecycle.Program.{within, run-within}
use build_o_tron.Lifecycle.Stepwise.{
  on_ctx, put_back, Stepwise, bind-Stepwise, try-Stepwise, own-Stepwise, method-Stepwise,
  find-Stepwise, expect_some-Stepwise, known-Stepwise, expect-Stepwise,
}

-- The rest of a session, beside the database.
pub record Connection : Type 0 where
  pub active_tasks : List ℕ
  pub notices : List Notice
  pub client : RunnerClient

abbrev pub session_of : Connection → DbCtx → Session
session_of c ctx = record {
  ctx = ctx;
  active_tasks = c.active_tasks;
  notices = c.notices;
  client = c.client;
}

on_client-Stepwise : {A : Type 0} (m : Action RunnerClient A) → Stepwise session_of (on_client m)
on_client-Stepwise m =
    own-Stepwise (λ (c : Connection). let (r, k) = m c.client in (r, record c { client = k }))
      (λ c ctx. refl)

on_db-Stepwise :
    {A : Type 0} {m : Action DbCtx A} → Stepwise on_ctx m → Stepwise session_of (on_db m)
on_db-Stepwise h = record {
  program = within h.program;
  same = λ c ctx.
      ap (λ x. (x.0, session_of c x.1)) (h.same tt ctx)
      ∙ ap (put_back session_of) (sym (run-within h.program c ctx));
}

mark_if-Stepwise : (taken : Bool) (id : ℕ) → Stepwise session_of (mark_if taken id)
mark_if-Stepwise true id =
    own-Stepwise (λ (c : Connection). (ok tt, record c { active_tasks = id ∷ c.active_tasks }))
      (λ c ctx. refl)
mark_if-Stepwise false id = known-Stepwise _

offered-Stepwise : (url sha : String) → Stepwise session_of (submitted (on_client (offer url sha)))
offered-Stepwise url sha =
    let h =
      try-Stepwise session_of (on_client (offer url sha)) (λ r s. (submit_failed r, s))
        (on_client-Stepwise (offer url sha)) (λ r. known-Stepwise (submit_failed r)) in
    record { program = h.program; same = h.same }

submit-Stepwise : (run : PendingRun) (url sha : String) → Stepwise session_of (submit run url sha)
unfolding submit
submit-Stepwise run url sha =
    bind-Stepwise session_of _ _ (offered-Stepwise url sha) λ taken. mark_if-Stepwise taken run.id

record_start-Stepwise :
    (now id host_id : ℕ) (path token : String)
    → Stepwise on_ctx (record_start now id host_id path token)
unfolding run_method
record_start-Stepwise now id host_id path token =
    method-Stepwise (start_run now id host_id path token)

pub activate_run-Stepwise :
    (create_dir : String → CreateDir) (now : ℕ) (job : Job) (run : PendingRun)
    → Stepwise session_of (activate_run create_dir now job run)
unfolding activate_run remote_by_id repo_by_id
activate_run-Stepwise create_dir now job run =
    bind-Stepwise session_of _ _ (on_db-Stepwise (find-Stepwise _)) λ found.
      bind-Stepwise session_of _ _ (expect_some-Stepwise session_of _ found) λ (remote : Remote).
        bind-Stepwise session_of _ _ (on_db-Stepwise (find-Stepwise _)) λ owner.
          bind-Stepwise session_of _ _ (expect_some-Stepwise session_of _ owner) λ (repo : Repo).
            bind-Stepwise session_of _ _
              (expect-Stepwise _ (on_db-Stepwise (commit_sha-Stepwise job.commit_id)))
              λ sha. bind-Stepwise session_of _ _ (expect-Stepwise _ (known-Stepwise _)) λ path.
                bind-Stepwise session_of _ _ (submit-Stepwise run remote.remote_git_url sha) λ _.
                  bind-Stepwise session_of (gets (λ s. s.client)) _
                    (own-Stepwise (gets (λ c. c.client)) (λ c ctx. refl))
                    λ (client : RunnerClient).
                      on_db-Stepwise
                        (record_start-Stepwise now run.id client.host_id path client.build_token)

record_result-Stepwise :
    (now id : ℕ) (info : TaskInfo)
    → Stepwise on_ctx (record_result now id (verdict info).0 (verdict info).1)
unfolding run_method
record_result-Stepwise now id info = method-Stepwise (finish_run now id info)

module _ (o : Outside) (job : ClientJob) where
  proceed-Stepwise :
      (rest : Action Session (Unit {0})) (go_on : Bool)
      → Stepwise session_of rest
      → Stepwise session_of (proceed o job go_on rest)
  proceed-Stepwise rest true h = h
  proceed-Stepwise rest false h = known-Stepwise _

module _ (o : Outside) (job : ClientJob) where
  notify-Stepwise :
      (told : JobOutcome) (n : RemoteNotifier) → Stepwise session_of (notify o job told n)
  notify-Stepwise told n =
      let sent = tell_complete_job o n job.sha told in
      own-Stepwise
        (λ (c : Connection). (
          keep_going o job sent,
          record c {
            notices = record { to = n; about = job.sha; told = told; delivered = sent } ∷ c.notices;
          },
        ))
        (λ c ctx. refl)

  notify_all-Stepwise :
      (told : JobOutcome) (ns : List RemoteNotifier)
      → Stepwise session_of (notify_all o job told ns)
  unfolding notify_all
  notify_all-Stepwise told [] = known-Stepwise _
  notify_all-Stepwise told (n ∷ ns) =
      bind-Stepwise session_of (notify o job told n) (λ _. notify_all o job told ns)
        (notify-Stepwise told n) λ _. notify_all-Stepwise told ns

  complete-Stepwise : (now : ℕ) (info : TaskInfo) → Stepwise session_of (complete o job now info)
  unfolding complete job_by_id repo_id_by_remote
  complete-Stepwise now info =
      bind-Stepwise session_of _ _ (on_db-Stepwise (find-Stepwise _)) λ row.
        bind-Stepwise session_of _ _ (expect_some-Stepwise session_of _ row) λ (found : Job).
          bind-Stepwise session_of _ _ (on_db-Stepwise (find-Stepwise _)) λ repo.
            bind-Stepwise session_of _ _ (expect_some-Stepwise session_of _ repo) λ (repo_id : ℕ).
              bind-Stepwise session_of _ _
                (expect-Stepwise _
                  (on_db-Stepwise (notifiers_by_repo-Stepwise o job.config_path repo_id)))
                λ notifiers.
                  bind-Stepwise session_of _ _ (notify_all-Stepwise (verdict info).0 notifiers)
                    λ _. on_db-Stepwise (record_result-Stepwise now job.task.id info)

  pub handle-Stepwise : (now : ℕ) (m : ClientProto) → Stepwise session_of (handle o job now m)
  unfolding handle
  handle-Stepwise now (ClientProto.new_task_please _ _) = known-Stepwise _
  handle-Stepwise now (ClientProto.task_status info) =
      bind-Stepwise session_of _ _ (complete-Stepwise now info) λ _. known-Stepwise _
  handle-Stepwise now ClientProto.artifact_create =
      bind-Stepwise session_of _ _ (expect-Stepwise _ (on_client-Stepwise (send (object_id "10"))))
        λ _. known-Stepwise _
  handle-Stepwise now (ClientProto.metric name value) =
      bind-Stepwise session_of _ _
        (expect-Stepwise _ (on_db-Stepwise (insert_metric-Stepwise job.task.id name value)))
        λ _. known-Stepwise _
  handle-Stepwise now (ClientProto.command _) = known-Stepwise _
  handle-Stepwise now _ = known-Stepwise _

  respond-Stepwise :
      (now : ℕ) (rest : Action Session (Unit {0})) (m : Option ClientProto)
      → Stepwise session_of rest
      → Stepwise session_of (respond o job now rest m)
  respond-Stepwise now rest none h = known-Stepwise _
  respond-Stepwise now rest (some m) h =
      bind-Stepwise session_of _ _ (handle-Stepwise now m)
        λ go_on. proceed-Stepwise o job rest go_on h

  -- The task of a connection, over whatever the runner sends and however it ends.
  pub serve-Stepwise : (messages : List (ℕ × Chunk)) → Stepwise session_of (serve o job messages)
  unfolding serve
  serve-Stepwise [] = known-Stepwise _
  serve-Stepwise ((now, x) ∷ later) =
      bind-Stepwise session_of _ _ (expect-Stepwise _ (known-Stepwise _))
        λ m. respond-Stepwise now (serve o job later) m (serve-Stepwise later)
