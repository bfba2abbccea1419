-- ===== src/Ctl/Webhook.antt =====
-- What `add repo` of ci-ctl/src/main.rs does at GitHub for a new remote: a webhook is made where the
-- repo has none of the service.
use build_o_tron.Base.{String, Bool, true, false, Outcome, ok, err, panic}
use build_o_tron.Server.Json.{Value}
use build_o_tron.Native.Github.{GithubApi, Request, Response, has_ci_webhook, create_ci_webhook}
use build_o_tron.Native.Notifier.{Outside, NotifierConfig, git_hub, email, github_from_file}

-- What is printed of it.
pub data WebhookDone : Type 0 where
  present : WebhookDone
  created : WebhookDone
  not_created : String → WebhookDone
  unknown : String → WebhookDone

module _ (send : Request → Outcome Response) (from_slice : String → Outcome Value) where
  abbrev after_create : Outcome (Unit {0}) → Outcome WebhookDone
  after_create (ok u) = ok created
  after_create (err e) = ok (not_created e)
  after_create (panic e) = panic e

  abbrev after_look : GithubApi → String → Outcome Bool → Outcome WebhookDone
  after_look gh remote (ok true) = ok present
  after_look gh remote (ok false) = after_create (create_ci_webhook send from_slice gh remote)
  after_look gh remote (err e) = ok (unknown e)
  after_look gh remote (panic e) = panic e

  unfoldable pub ensure_webhook : GithubApi → String → Outcome WebhookDone
  unfolding has_ci_webhook create_ci_webhook
  ensure_webhook gh remote = after_look gh remote (has_ci_webhook send from_slice gh remote)

  abbrev api_of : Outcome NotifierConfig → Outcome GithubApi
  api_of (ok (git_hub token webhook_token)) =
      ok (record { token = token; webhook_token = webhook_token })
  api_of (ok (email _ _ _ _ _)) =
      panic "unexpected notifier config format, should have been github.."
  api_of (err e) = panic "notifier config is valid"
  api_of (panic e) = panic e

  abbrev with_api : String → Outcome GithubApi → Outcome WebhookDone
  with_api remote (ok gh) = ensure_webhook gh remote
  with_api remote (err e) = err e
  with_api remote (panic e) = panic e

  -- The arm "github" that follows the new remote.
  unfoldable pub webhook_for : Outside → String → String → Outcome WebhookDone
  unfolding ensure_webhook github_from_file
  webhook_for o path remote = with_api remote (api_of (github_from_file o path))
