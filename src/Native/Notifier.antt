-- ===== src/Native/Notifier.antt =====
-- ci-lib-native/src/notifier.rs and `notifiers_by_repo` of ci-lib-native/src/dbctx_ext.rs: who is
-- told of a job, and what they are told. Files, HTTP and SMTP are parameters.
use Prim.Native.String.{◌++◌ as append}
use text.Mathlib.Text.{starts_with}
use build_o_tron.Base.{
  ℕ, String, ◌||◌, Option, none, some, List, [], ◌∷◌, Outcome, ok, err, panic, Action, ◌>>=◌, ◌==◌,
  ◌=?◌, if◌then◌else◌, decimal,
}
use build_o_tron.Core.Sql.{Remote}
use build_o_tron.Core.DbCtx.Lock.{DbCtx}
use build_o_tron.Core.DbCtx.Remotes.{remotes_by_repo}

pub data NotifierConfig : Type 0 where
  git_hub : String → String → NotifierConfig
  email : String → String → String → String → String → NotifierConfig

pub record RemoteNotifier : Type 0 where
  pub remote_path : String
  pub notifier : NotifierConfig

-- The `Result<String, String>` that a finished job is reported with.
pub data JobOutcome : Type 0 where
  success : String → JobOutcome
  failure : String → JobOutcome

abbrev pub told_as : JobOutcome → String
told_as (success status) = "success"
told_as (failure status) = "failure"

abbrev pub text_of : JobOutcome → String
text_of (success status) = status
text_of (failure status) = status

-- What the notifiers use of the world: a config file read and deserialized; the status code that
-- GitHub's API answers (token, repo, sha, state, description, url); and a mail handed to a server
-- (username, password, server, from, to, subject), which may also panic.
pub record Outside : Type 0 where
  pub read_config : String → Outcome NotifierConfig
  pub post_status : String → String → String → String → String → String → Outcome ℕ
  pub send_mail : String → String → String → String → String → String → Outcome (Unit {0})

abbrev as_github : String → NotifierConfig → Outcome NotifierConfig
as_github path (git_hub t w) = ok (git_hub t w)
as_github path (email u p m f t) =
    err (append (append "config at " path) " doesn't look like a github config")

abbrev as_email : String → NotifierConfig → Outcome NotifierConfig
as_email path (git_hub t w) =
    err (append (append "config at " path) " doesn't look like an email config")
as_email path (email u p m f t) = ok (email u p m f t)

abbrev pub and_then {ℓ κ} : {A : Type ℓ} {B : Type κ} → Outcome A → (A → Outcome B) → Outcome B
and_then (ok a) f = f a
and_then (err e) f = err e
and_then (panic e) f = panic e

-- `PathBuf::push`: an absolute path takes the place of the base.
abbrev pub push_path : String → String → String
push_path base path = if starts_with path "/" then path else append (append base "/") path

module _ (o : Outside) where
  unfoldable pub github_from_file : String → Outcome NotifierConfig
  github_from_file path = and_then (o.read_config path) (as_github path)

  unfoldable pub email_from_file : String → Outcome NotifierConfig
  email_from_file path = and_then (o.read_config path) (as_email path)

  -- `.expect("can load notifier config")`
  abbrev loaded : String → Outcome NotifierConfig → Outcome (Option RemoteNotifier)
  loaded remote_path (ok c) = ok (some (record { remote_path = remote_path; notifier = c }))
  loaded remote_path (err e) = panic "can load notifier config"
  loaded remote_path (panic e) = panic e

  -- One turn of the loop of `notifiers_by_repo`; a remote of another kind has no notifier.
  unfoldable pub notifier_of : String → Remote → Outcome (Option RemoteNotifier)
  unfolding github_from_file email_from_file
  notifier_of config_path r =
      let path = push_path config_path r.notifier_config_path in
      if r.remote_api =? "github"
      then loaded r.remote_path (github_from_file path)
      else if r.remote_api =? "email"
      then loaded r.remote_path (email_from_file path)
      else ok none

  abbrev add_notifier : Option RemoteNotifier → List RemoteNotifier → List RemoteNotifier
  add_notifier none ns = ns
  add_notifier (some n) ns = n ∷ ns

  unfoldable pub notifiers_of : String → List Remote → Outcome (List RemoteNotifier)
  notifiers_of config_path [] = ok []
  notifiers_of config_path (r ∷ rs) =
      let rest = notifiers_of config_path rs in
      and_then (notifier_of config_path r) (λ n. and_then rest (λ ns. ok (add_notifier n ns)))

  unfoldable pub notifiers_by_repo : String → ℕ → Action DbCtx (List RemoteNotifier)
  unfolding notifiers_of remotes_by_repo
  notifiers_by_repo config_path repo_id = do
    remotes ← remotes_by_repo repo_id
    λ ctx. (notifiers_of config_path remotes, ctx)

  -- GitHub accepts a status with 200 or 201.
  abbrev accepted : ℕ → Outcome (Unit {0})
  accepted code =
      if code == 200 || code == 201 then ok tt else err (append "bad response: " (decimal code))

  abbrev tell : NotifierConfig → String → String → String → String → String → Outcome (Unit {0})
  tell (git_hub token webhook_token) path sha state desc url =
      and_then (o.post_status token path sha state desc url) accepted
  tell (email user password server from to) path sha state desc url =
      o.send_mail user password server from to (append (append state ": job for ") path)

  unfoldable pub tell_job_status :
      RemoteNotifier → String → String → String → String → Outcome (Unit {0})
  tell_job_status n sha state desc url = tell n.notifier n.remote_path sha state desc url

  -- `https://ci.butactuallyin.space/<remote>/<sha>`
  abbrev pub job_page : RemoteNotifier → String → String
  job_page n sha = append (append (append "https://ci.butactuallyin.space/" n.remote_path) "/") sha

  unfoldable pub tell_pending_job : RemoteNotifier → String → Outcome (Unit {0})
  unfolding tell_job_status
  tell_pending_job n sha = tell_job_status n sha "pending" "build is queued" (job_page n sha)

  unfoldable pub tell_complete_job : RemoteNotifier → String → JobOutcome → Outcome (Unit {0})
  unfolding tell_job_status
  tell_complete_job n sha result =
      tell_job_status n sha (told_as result) (text_of result) (job_page n sha)
