-- ===== src/Server/Webhook.antt =====
-- `handle_repo_event`, `handle_github_event` and `process_push_event` of ci-web-server/src/main.rs.
pub mod Guard
pub mod Jobs
use Prim.Native.String.{◌++◌ as append, len, slice}
use text.Mathlib.Text.{get?, starts_with}
use mathlib.Core.Option
use build_o_tron.Base.{
  ℕ, String, Bool, true, false, Option, none, some, List, [], ◌∷◌, Outcome, ok, err, panic, Action,
  ◌>>=◌, ◌>>◌, pure, fail, abort, expect, expect_some, first?, ◌==◌, ◌=?◌, if◌then◌else◌,
}
use build_o_tron.Core.Sql.{Remote, Repo}
use build_o_tron.Core.Db.{Db}
use build_o_tron.Base.Header.{Header}
use build_o_tron.Core.DbCtx.Lock.{DbCtx, locked}
use build_o_tron.Core.DbCtx.Commits.{commit_to_id, update_commit_name}
use build_o_tron.Core.DbCtx.Jobs.{new_job}
use build_o_tron.Core.DbCtx.Runs.{new_run}
use build_o_tron.Core.DbCtx.Remotes.{queried_repo}
use build_o_tron.Native.Notifier.{Outside, RemoteNotifier, notifiers_by_repo, tell_pending_job}
use build_o_tron.Server.Json.{Value, Members, as_str, get}
use build_o_tron.Server.PushEvent.{
  GithubEvent, PushEvent, push, other, Parsed, parsed, refused, parse_push_event,
}

-- `StatusCode`s, with what the body says where the handlers differ in it.
pub data Reply : Type 0 where
  ok_reply empty_reply not_found bad_request : Reply

-- `format!("https://www.github.com/{}.git", repo)`
abbrev pub git_url : String → String
git_url repo = append (append "https://www.github.com/" repo) ".git"

-- `select id, repo_id from remotes where remote_git_url=?1;`
abbrev pub remote_by_git_url : String → Db → Option Remote
remote_by_git_url url db = first? (λ (r : Remote). r.remote_git_url =? url) db.remotes.rows

-- `"refs/heads/x"` is shown as `"x"`.
unfoldable pub short_ref_name : String → String
short_ref_name ref =
    if starts_with ref "refs/heads/" then slice ref (len "refs/heads/") (len ref) else ref

-- `pusher.get("email").expect("has email").as_str().expect("is str")`
abbrev pub pusher_email : Members → Action DbCtx String
pusher_email pusher = do
  v ← expect_some "has email" (get pusher "email")
  expect_some "is str" (as_str v)

-- The query for the repo's `default_run_preference`.
abbrev pub default_preference : ℕ → Action DbCtx (Option String)
default_preference repo_id = do r ← queried_repo repo_id; pure r.default_run_preference

module _ (o : Outside) (config_path : String) where
  -- `notifier.tell_pending_job(…).await.expect("can notify")` for each notifier.
  abbrev told : Outcome (Unit {0}) → Outcome (Unit {0})
  told (ok u) = ok u
  told (err e) = panic "can notify"
  told (panic e) = panic e

  unfoldable pub tell_all : String → List RemoteNotifier → Outcome (Unit {0})
  tell_all sha [] = ok tt
  tell_all sha (n ∷ ns) =
      let rest = tell_all sha ns in
      elim (told (tell_pending_job o n sha)) [ ok u ↦ rest | err e ↦ err e | panic e ↦ panic e ]

  -- The arm `None` of `process_push_event`: a commit, a job, a run, and the notices.
  unfoldable pub start_job : ℕ → ℕ → String → ℕ → Members → Action DbCtx ℕ
  unfolding new_job new_run tell_all notifiers_by_repo
  start_job now remote_id sha repo_id pusher = do
    pref ← default_preference repo_id
    email ← pusher_email pusher
    (job_id, commit_id) ← new_job now remote_id sha (some email) pref
    new_run now job_id none
    notifiers ← expect "can get notifiers" (notifiers_by_repo o config_path repo_id)
    λ ctx. (tell_all sha notifiers, ctx)
    pure commit_id

  abbrev pub commit_for : ℕ → Remote → PushEvent → Option ℕ → Action DbCtx ℕ
  commit_for now remote event (some id) = pure id
  commit_for now remote event none = start_job now remote.id event.tip remote.repo_id event.pusher

  abbrev pub for_remote : ℕ → PushEvent → Option Remote → Action DbCtx Reply
  for_remote now event none = pure not_found
  for_remote now event (some remote) = do
    known ← locked (λ db. (ok (commit_to_id event.tip db), db))
    commit_id ← commit_for now remote event known
    update_commit_name commit_id (short_ref_name event.ref_name)
    pure ok_reply

  -- `process_push_event`; the repo is the one that the event names.
  unfoldable pub process_push_event : ℕ → GithubEvent → Action DbCtx Reply
  unfolding start_job update_commit_name short_ref_name
  process_push_event now other = abort "process push event on non-push event"
  process_push_event now (push event) = do
    remote ← locked (λ db. (ok (remote_by_git_url (git_url event.repo_name) db), db))
    for_remote now event remote

  abbrev pub parsed_event : Parsed GithubEvent → Action DbCtx GithubEvent
  parsed_event (parsed e) = pure e
  parsed_event (refused e) = abort "explicit panic"

  -- `handle_github_event`: the reply to a push does not depend on what became of it.
  unfoldable pub handle_github_event : ℕ → String → Value → Action DbCtx Reply
  unfolding process_push_event parse_push_event
  handle_github_event now kind body =
      if kind =? "push"
      then (do
        event ← parsed_event (parse_push_event body)
        process_push_event now event
        pure ok_reply)
      else if kind =? "status"
      then pure ok_reply
      else pure empty_reply

-- A request to `/:owner/:repo`: the body as bytes, what serde makes of it, and two headers.
pub record HookRequest : Type 0 where
  pub body : List ℕ
  pub payload : Option Value
  pub signature : Option Header
  pub kind : Option Header

-- What is used of the crates `hmac`, `sha2` and `hex`: a digest of a body under a key, and the bytes
-- that a text spells, if it is valid hex.
pub record Crypto : Type 0 where
  pub hmac_sha256 : String → List ℕ → List ℕ
  pub hex_decode : String → Option (List ℕ)

-- `decoded == result`
unfoldable pub same_bytes : List ℕ → List ℕ → Bool
same_bytes [] [] = true
same_bytes (a ∷ as') (b ∷ bs) = if a == b then same_bytes as' bs else false
same_bytes _ _ = false

module _ (c : Crypto) where
  -- `hex::decode(&sent_hmac[7..]).expect(…)`: a text of fewer than 7 bytes panics, as does bad hex.
  unfoldable pub decoded : String → Outcome (List ℕ)
  decoded sent = elim (get? sent 7 (len sent)) [
    | none ↦ panic "byte index 7 is out of bounds"
    | some digits ↦ elim (c.hex_decode digits) [
      | none ↦ panic "provided hmac is valid hex"
      | some bytes ↦ ok bytes
    ]
  ]

  -- The loop over `PSKS`. With no key nothing is decoded.
  unfoldable pub hmac_ok : List ℕ → String → List String → Outcome Bool
  unfolding decoded same_bytes
  hmac_ok body sent [] = ok false
  hmac_ok body sent (key ∷ keys) =
      let rest = hmac_ok body sent keys in
      elim (decoded sent) [
        | ok bytes ↦ if same_bytes bytes (c.hmac_sha256 key body) then ok true else rest
        | err e ↦ err e
        | panic e ↦ panic e
      ]

  abbrev pub check_hmac : Outcome Bool → Action DbCtx Reply → Action DbCtx Reply
  check_hmac (ok true) k = k
  check_hmac (ok false) k = pure bad_request
  check_hmac (err e) k = fail e
  check_hmac (panic e) k = abort e

  abbrev pub or_bad_request {ℓ} :
      {A : Type ℓ} → Option A → (A → Action DbCtx Reply) → Action DbCtx Reply
  or_bad_request none k = pure bad_request
  or_bad_request (some a) k = k a

  -- A header that is no text panics.
  abbrev pub header_or_bad_request :
      Option Header → (String → Action DbCtx Reply) → Action DbCtx Reply
  header_or_bad_request none k = pure bad_request
  header_or_bad_request (some (Header.text t)) k = k t
  header_or_bad_request (some Header.opaque) k = abort "valid ascii string"

  -- `handle_repo_event`, with the keys of `PSKS`.
  unfoldable pub handle_repo_event :
      Outside → String → List String → ℕ → HookRequest → Action DbCtx Reply
  unfolding hmac_ok handle_github_event
  handle_repo_event o config_path psks now r = or_bad_request r.payload λ payload.
      header_or_bad_request r.signature λ sent.
        check_hmac (hmac_ok r.body sent psks)
          (header_or_bad_request r.kind λ kind. handle_github_event o config_path now kind payload)
