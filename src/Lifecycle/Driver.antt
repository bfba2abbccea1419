-- ===== src/Lifecycle/Driver.antt =====
-- The driver's search for work, its reaper and its HTTP handlers (ci-driver/src/main.rs) pause at each
-- taking of the lock.
use build_o_tron.Base.{
  ℕ, String, Bool, true, false, Option, none, some, List, [], ◌∷◌, Action, Bool-cases, inl, inr,
  select, length, leb, pure, gets, ok, panic, ◌≡◌, refl, ap, sym, ◌∙◌, ◌++◌, if◌then◌else◌,
}
use build_o_tron.Core.Protocol.{ClientProto, new_task_please}
use build_o_tron.Core.Sql.{Job, PendingRun, Run, TokenValidity}
use build_o_tron.Core.DbCtx.Lock.{DbCtx}
use build_o_tron.Core.DbCtx.Jobs.{job_by_id}
use build_o_tron.Core.DbCtx.Runs.{get_active_runs, get_pending_runs, run_for_token}
use build_o_tron.Driver.Client.{RunnerClient, will_accept, Chunk}
use build_o_tron.Driver.FindWork.{Work, first_accepted, first_rerun, look, take_if, or_rerun}
use build_o_tron.Driver.Reaper.{reap_all, is_stale, old_task_reaper}
use build_o_tron.Driver.Reaper.Removal.{remove_active}
use build_o_tron.Driver.Api.{
  CreateNew, ArtifactRequest, Status, reserve_artifact, handle_artifact, store_done,
  handle_next_job, Lobby, FirstChunk, request, unparsed, not_utf8, broken, absent, on_lobby, admit,
  first_of_body, ok_200, im_a_teapot, bad_request, channel_capacity, with_valid_token, or_reject,
  store_artifact, answer, authorized, enqueue, new_client,
}
use build_o_tron.Base.Header.{Header, text, opaque}
use build_o_tron.Lifecycle.Program.{within, run-within}
use build_o_tron.Lifecycle.Stepwise.{
  put_back, own-Stepwise, try-Stepwise, if-Stepwise, on_ctx, Stepwise, bind-Stepwise, find-Stepwise,
  known-Stepwise, expect-Stepwise, expect_some-Stepwise, new_run-Stepwise,
}
use build_o_tron.Lifecycle.Database.{
  jobs_needing-Stepwise, reap_task-Stepwise, add_artifact-Stepwise, finalize_artifact-Stepwise,
  id_for_host-Stepwise,
}

take_if-Stepwise :
    (take : Bool) (run : PendingRun) (job : Job) (rest : Action DbCtx (Option Work))
    → Stepwise on_ctx rest
    → Stepwise on_ctx (take_if take run job rest)
take_if-Stepwise true run job rest h = known-Stepwise _
take_if-Stepwise false run job rest h = h

first_accepted-Stepwise :
    (client : RunnerClient) (runs : List PendingRun) → Stepwise on_ctx (first_accepted client runs)
unfolding first_accepted job_by_id
first_accepted-Stepwise client [] = known-Stepwise _
first_accepted-Stepwise client (run ∷ runs) = bind-Stepwise on_ctx _ _ (find-Stepwise _) λ row.
    bind-Stepwise on_ctx _ _ (expect_some-Stepwise on_ctx _ row) λ (job : Job).
      take_if-Stepwise (will_accept client job) run job (first_accepted client runs)
        (first_accepted-Stepwise client runs)

first_rerun-Stepwise :
    (now : ℕ) (client : RunnerClient) (jobs : List Job)
    → Stepwise on_ctx (first_rerun now client jobs)
unfolding first_rerun
first_rerun-Stepwise now client [] = known-Stepwise _
first_rerun-Stepwise now client (job ∷ jobs) =
    if-Stepwise (will_accept client job)
      (bind-Stepwise on_ctx _ _ (new_run-Stepwise now job.id (some client.host_id))
        λ run. known-Stepwise _)
      (first_rerun-Stepwise now client jobs)

or_rerun-Stepwise :
    (now : ℕ) (client : RunnerClient) (found : Option Work)
    → Stepwise on_ctx (or_rerun now client found)
or_rerun-Stepwise now client (some work) = known-Stepwise _
or_rerun-Stepwise now client none =
    bind-Stepwise on_ctx _ _ (expect-Stepwise _ (jobs_needing-Stepwise now client.host_id))
      λ jobs. first_rerun-Stepwise now client jobs

pub look-Stepwise : (now : ℕ) (client : RunnerClient) → Stepwise on_ctx (look now client)
unfolding look get_pending_runs
look-Stepwise now client = bind-Stepwise on_ctx _ _ (find-Stepwise _) λ runs.
    bind-Stepwise on_ctx _ _ (first_accepted-Stepwise client runs)
      λ found. or_rerun-Stepwise now client found

reap_all-Stepwise : (runs : List Run) → Stepwise on_ctx (reap_all runs)
unfolding reap_all
reap_all-Stepwise [] = known-Stepwise _
reap_all-Stepwise (r ∷ rs) =
    bind-Stepwise on_ctx _ _ (expect-Stepwise _ (reap_task-Stepwise r.id)) λ _. reap_all-Stepwise rs

pub old_task_reaper-Stepwise :
    (active : List ℕ) (now : ℕ) → Stepwise on_ctx (old_task_reaper active now)
unfolding old_task_reaper get_active_runs
old_task_reaper-Stepwise active now = bind-Stepwise on_ctx _ _ (find-Stepwise _) λ runs.
    bind-Stepwise on_ctx _ _ (known-Stepwise _)
      λ (threshold : ℕ). reap_all-Stepwise (select (is_stale threshold) (remove_active active runs))

or_reject-Stepwise :
    (h : Option Header) (k : String → Action DbCtx Status)
    → ((t : String) → Stepwise on_ctx (k t))
    → Stepwise on_ctx (or_reject h k)
or_reject-Stepwise none k r = known-Stepwise _
or_reject-Stepwise (some (text t)) k r = r t
or_reject-Stepwise (some opaque) k r = known-Stepwise _

with_valid_token-Stepwise :
    (found : Option (ℕ × Option String × TokenValidity)) (k : ℕ → Action DbCtx Status)
    → ((run : ℕ) → Stepwise on_ctx (k run))
    → Stepwise on_ctx (with_valid_token found k)
with_valid_token-Stepwise none k h = known-Stepwise _
with_valid_token-Stepwise (some (run, path, TokenValidity.expired)) k h = known-Stepwise _
with_valid_token-Stepwise (some (run, path, TokenValidity.invalid)) k h = known-Stepwise _
with_valid_token-Stepwise (some (run, none, TokenValidity.valid)) k h = known-Stepwise _
with_valid_token-Stepwise (some (run, some path, TokenValidity.valid)) k h = h run

reserve_artifact-Stepwise :
    (create : CreateNew) (now run : ℕ) (name desc : String)
    → Stepwise on_ctx (reserve_artifact create now run name desc)
unfolding reserve_artifact
reserve_artifact-Stepwise create now run name desc =
    bind-Stepwise on_ctx _ _ (add_artifact-Stepwise now run name desc) λ id. known-Stepwise _

store_artifact-Stepwise :
    (create : CreateNew) (now : ℕ) (r : ArtifactRequest) (run : ℕ)
    → Stepwise on_ctx (store_artifact create now r run)
unfolding store_artifact
store_artifact-Stepwise create now r run = or_reject-Stepwise r.artifact_name _ λ name.
    or_reject-Stepwise r.artifact_desc _ λ desc.
      let h =
        try-Stepwise on_ctx (reserve_artifact create now run name desc) (λ a s. (answer a, s))
          (reserve_artifact-Stepwise create now run name desc) (λ a. known-Stepwise (answer a)) in
      record { program = h.program; same = h.same }

pub handle_artifact-Stepwise :
    (create : CreateNew) (checked now : ℕ) (r : ArtifactRequest)
    → Stepwise on_ctx (handle_artifact create checked now r)
unfolding handle_artifact run_for_token
handle_artifact-Stepwise create checked now r = or_reject-Stepwise r.task_token _ λ token.
    bind-Stepwise on_ctx _ _ (expect-Stepwise _ (find-Stepwise _)) λ found.
      with_valid_token-Stepwise found (store_artifact create now r)
        λ run. store_artifact-Stepwise create now r run

pub store_done-Stepwise : (now id : ℕ) → Stepwise on_ctx (store_done now id)
unfolding store_done
store_done-Stepwise now id = finalize_artifact-Stepwise now id

-- The rest of `Lobby`, beside the database.
pub record Waiting : Type 0 where
  pub auth_secret : Option String
  pub waiting : List RunnerClient
  pub receiver_gone : Bool

abbrev pub lobby_of : Waiting → DbCtx → Lobby
lobby_of w ctx = record {
  ctx = ctx;
  auth_secret = w.auth_secret;
  waiting = w.waiting;
  receiver_gone = w.receiver_gone;
}

abbrev enqueued : RunnerClient → Action Waiting Status
enqueued c w =
    if w.receiver_gone
    then (panic "client holder is gone?", w)
    else if leb channel_capacity (length w.waiting)
    then (ok im_a_teapot, w)
    else (ok ok_200, record w { waiting = w.waiting ++ (c ∷ []) })

enqueue-Stepwise : (c : RunnerClient) → Stepwise lobby_of (enqueue c)
enqueue-Stepwise c = own-Stepwise (enqueued c) λ w ctx. elim (Bool-cases w.receiver_gone) [
  | inl g ↦ rw g refl
  | inr k ↦
      rw k (elim (Bool-cases (leb 8 (length w.waiting))) [ inl y ↦ rw y refl | inr n ↦ rw n refl ])
]

on_lobby-Stepwise :
    {A : Type 0} {m : Action DbCtx A} → Stepwise on_ctx m → Stepwise lobby_of (on_lobby m)
on_lobby-Stepwise h = record {
  program = within h.program;
  same = λ w ctx.
      ap (λ x. (x.0, lobby_of w x.1)) (h.same tt ctx)
      ∙ ap (put_back lobby_of) (sym (run-within h.program w ctx));
}

admit-Stepwise :
    (rx : List Chunk) (tx : List Bool) (token : String) (m : ClientProto)
    → Stepwise lobby_of (admit rx tx token m)
admit-Stepwise rx tx token (new_task_please pushers host_info) =
    bind-Stepwise lobby_of _ _
      (expect-Stepwise _ (on_lobby-Stepwise (id_for_host-Stepwise host_info)))
      λ (host_id : ℕ). enqueue-Stepwise (new_client rx tx pushers host_id token)
admit-Stepwise rx tx token _ = known-Stepwise _

first_of_body-Stepwise :
    (body : FirstChunk) (rx : List Chunk) (tx : List Bool) (token : String)
    → Stepwise lobby_of (first_of_body body rx tx token)
first_of_body-Stepwise (request m) rx tx token = admit-Stepwise rx tx token m
first_of_body-Stepwise unparsed rx tx token = known-Stepwise _
first_of_body-Stepwise not_utf8 rx tx token = known-Stepwise _
first_of_body-Stepwise broken rx tx token = known-Stepwise _
first_of_body-Stepwise absent rx tx token = known-Stepwise _

rested :
    {S A : Type 0} (y : Bool) (m : Action S A) (a : A) (s : S)
    → (if y then m s else (ok a, s)) ≡ (if y then m else pure a) s
rested true m a s = refl
rested false m a s = refl

pub handle_next_job-Stepwise :
    (header : Option Header) (body : FirstChunk) (rx : List Chunk) (tx : List Bool) (token : String)
    → Stepwise lobby_of (handle_next_job header body rx tx token)
unfolding handle_next_job
handle_next_job-Stepwise none body rx tx token = known-Stepwise _
handle_next_job-Stepwise (some header) body rx tx token =
    let rest = λ (y : Bool). if y then first_of_body body rx tx token else pure bad_request in
    let h =
      bind-Stepwise lobby_of (gets (λ l. authorized l.auth_secret header)) rest
        (own-Stepwise (gets (λ (w : Waiting). authorized w.auth_secret header)) (λ w ctx. refl))
        (λ y. if-Stepwise y (first_of_body-Stepwise body rx tx token) (known-Stepwise _)) in
    record {
      program = h.program;
      same = λ w ctx.
          rested (authorized w.auth_secret header) (first_of_body body rx tx token) bad_request
            (lobby_of w ctx)
          ∙ h.same w ctx;
    }
