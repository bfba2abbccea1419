-- ===== src/Lifecycle/Requests.antt =====
-- The webhook (ci-web-server/src/main.rs) and the commands of ci-ctl (ci-ctl/src/main.rs) pause at each
-- taking of the lock.
use build_o_tron.Base.{
  ℕ, String, Bool, true, false, Option, none, some, List, Outcome, ok, err, panic, Action, ◌=?◌,
}
use build_o_tron.Core.Sql.{Remote, Repo}
use build_o_tron.Base.Header.{Header}
use build_o_tron.Core.DbCtx.Lock.{DbCtx}
use build_o_tron.Core.DbCtx.Remotes.{find_repo, queried}
use build_o_tron.Native.Notifier.{Outside}
use build_o_tron.Server.Json.{Value, Members, as_str, get}
use build_o_tron.Server.PushEvent.{
  GithubEvent, PushEvent, push, other, Parsed, parsed, refused, parse_push_event,
}
use build_o_tron.Server.Webhook.{
  Reply, default_preference, pusher_email, parsed_event, tell_all, start_job, commit_for,
  for_remote, process_push_event, handle_github_event, HookRequest, Crypto, hmac_ok, check_hmac,
  or_bad_request, header_or_bad_request, handle_repo_event,
}
use build_o_tron.Lifecycle.Stepwise.{
  if-Stepwise, on_ctx, Stepwise, bind-Stepwise, find-Stepwise, known-Stepwise, expect-Stepwise,
  expect_some-Stepwise, new_run-Stepwise,
}
use build_o_tron.Lifecycle.Database.{
  new_job-Stepwise, update_commit_name-Stepwise, notifiers_by_repo-Stepwise,
}

default_preference-Stepwise : (repo_id : ℕ) → Stepwise on_ctx (default_preference repo_id)
default_preference-Stepwise repo_id =
    bind-Stepwise on_ctx _ _ (find-Stepwise (λ db. queried (find_repo repo_id db)))
      λ (r : Repo). known-Stepwise _

pusher_email-Stepwise : (pusher : Members) → Stepwise on_ctx (pusher_email pusher)
pusher_email-Stepwise pusher =
    bind-Stepwise on_ctx _ _ (expect_some-Stepwise on_ctx _ (get pusher "email"))
      λ (v : Value). expect_some-Stepwise on_ctx _ (as_str v)

module _ (o : Outside) (config_path : String) where
  start_job-Stepwise :
      (now remote_id : ℕ) (sha : String) (repo_id : ℕ) (pusher : Members)
      → Stepwise on_ctx (start_job o config_path now remote_id sha repo_id pusher)
  unfolding start_job
  start_job-Stepwise now remote_id sha repo_id pusher =
      bind-Stepwise on_ctx _ _ (default_preference-Stepwise repo_id) λ pref.
        bind-Stepwise on_ctx _ _ (pusher_email-Stepwise pusher) λ (email : String).
          bind-Stepwise on_ctx _ _ (new_job-Stepwise now remote_id sha (some email) pref)
            λ (ids : ℕ × ℕ). bind-Stepwise on_ctx _ _ (new_run-Stepwise now ids.0 none) λ _.
              bind-Stepwise on_ctx _ _
                (expect-Stepwise _ (notifiers_by_repo-Stepwise o config_path repo_id))
                λ notifiers.
                  bind-Stepwise on_ctx _ _ (known-Stepwise (tell_all o config_path sha notifiers))
                    λ _. known-Stepwise _

  commit_for-Stepwise :
      (now : ℕ) (remote : Remote) (event : PushEvent) (known : Option ℕ)
      → Stepwise on_ctx (commit_for o config_path now remote event known)
  commit_for-Stepwise now remote event (some id) = known-Stepwise _
  commit_for-Stepwise now remote event none =
      start_job-Stepwise now remote.id event.tip remote.repo_id event.pusher

  for_remote-Stepwise :
      (now : ℕ) (event : PushEvent) (remote : Option Remote)
      → Stepwise on_ctx (for_remote o config_path now event remote)
  for_remote-Stepwise now event none = known-Stepwise _
  for_remote-Stepwise now event (some remote) = bind-Stepwise on_ctx _ _ (find-Stepwise _) λ known.
      bind-Stepwise on_ctx _ _ (commit_for-Stepwise now remote event known) λ (commit_id : ℕ).
        bind-Stepwise on_ctx _ _ (update_commit_name-Stepwise commit_id _) λ _. known-Stepwise _

  process_push_event-Stepwise :
      (now : ℕ) (event : GithubEvent) → Stepwise on_ctx (process_push_event o config_path now event)
  unfolding process_push_event
  process_push_event-Stepwise now other = known-Stepwise _
  process_push_event-Stepwise now (push event) =
      bind-Stepwise on_ctx _ _ (find-Stepwise _) λ remote. for_remote-Stepwise now event remote

  parsed_event-Stepwise : (p : Parsed GithubEvent) → Stepwise on_ctx (parsed_event o config_path p)
  parsed_event-Stepwise (parsed e) = known-Stepwise _
  parsed_event-Stepwise (refused e) = known-Stepwise _

  pub handle_github_event-Stepwise :
      (now : ℕ) (kind : String) (body : Value)
      → Stepwise on_ctx (handle_github_event o config_path now kind body)
  unfolding handle_github_event
  handle_github_event-Stepwise now kind body =
      if-Stepwise (kind =? "push")
        (bind-Stepwise on_ctx _ _ (parsed_event-Stepwise (parse_push_event body)) λ event.
          bind-Stepwise on_ctx _ _ (process_push_event-Stepwise now event) λ _. known-Stepwise _)
        (if-Stepwise (kind =? "status") (known-Stepwise _) (known-Stepwise _))

module _ (c : Crypto) where
  or_bad_request-Stepwise :
      {A : Type 0} (a : Option A) (k : A → Action DbCtx Reply)
      → ((a : A) → Stepwise on_ctx (k a))
      → Stepwise on_ctx (or_bad_request c a k)
  or_bad_request-Stepwise none k h = known-Stepwise _
  or_bad_request-Stepwise (some a) k h = h a

  header-Stepwise :
      (h : Option Header) (k : String → Action DbCtx Reply)
      → ((t : String) → Stepwise on_ctx (k t))
      → Stepwise on_ctx (header_or_bad_request c h k)
  header-Stepwise none k h = known-Stepwise _
  header-Stepwise (some (Header.text t)) k h = h t
  header-Stepwise (some Header.opaque) k h = known-Stepwise _

  check_hmac-Stepwise :
      (checked : Outcome Bool) (k : Action DbCtx Reply)
      → Stepwise on_ctx k
      → Stepwise on_ctx (check_hmac c checked k)
  check_hmac-Stepwise (ok true) k h = h
  check_hmac-Stepwise (ok false) k h = known-Stepwise _
  check_hmac-Stepwise (err e) k h = known-Stepwise _
  check_hmac-Stepwise (panic e) k h = known-Stepwise _

  pub handle_repo_event-Stepwise :
      (o : Outside) (config_path : String) (psks : List String) (now : ℕ) (r : HookRequest)
      → Stepwise on_ctx (handle_repo_event c o config_path psks now r)
  unfolding handle_repo_event
  handle_repo_event-Stepwise o config_path psks now r =
      or_bad_request-Stepwise r.payload _ λ payload. header-Stepwise r.signature _ λ sent.
        check_hmac-Stepwise (hmac_ok c r.body sent psks) _ (
          header-Stepwise r.kind _
            λ kind. handle_github_event-Stepwise o config_path now kind payload)
