-- ===== src/Native/Github.antt =====
-- `GithubApi` of ci-lib-native/src/lib.rs: the requests that are made of GitHub, and what is read of
-- its answers. Sending a request, and parsing a body, are parameters. Error texts leave out the
-- `{:?}` of answers.
pub mod Hooks
use Prim.Native.String.{◌++◌ as append}
use package.text.Mathlib.Text.{starts_with}
use build_o_tron.Base.{
  ℕ, String, Bool, true, false, ◌||◌, Option, none, some, List, [], ◌∷◌, Outcome, ok, err, panic,
  ◌==◌, if◌then◌else◌,
}
use build_o_tron.Server.Json.{
  Value, Items, Members, boolean, text, array, object, nil, cons, end, member, as_object, as_str,
  get,
}
use build_o_tron.Native.Notifier.{and_then}

pub record GithubApi : Type 0 where
  pub token : String
  pub webhook_token : String

-- A request as it is handed to reqwest: the method, the url, the headers, and the body if it has one.
pub record Request : Type 0 where
  pub method : String
  pub url : String
  pub headers : List (String × String)
  pub body : Option Value

-- An answer: its status, and its body, if that can be fetched.
pub record Response : Type 0 where
  pub status : ℕ
  pub body : Outcome String

abbrev api_headers : GithubApi → List (String × String)
api_headers api =
    ("user-agent", "iximeow")
    ∷ ("authorization", append "Bearer " api.token)
    ∷ ("accept", "application/vnd.github+json")
    ∷ []

abbrev posted : GithubApi → String → Value → Request
posted api url body = record {
  method = "POST";
  url = url;
  headers = ("content-type", "application/json") ∷ api_headers api;
  body = some body;
}

abbrev repo_url : String → String
repo_url remote_path = append "https://api.github.com/repos/" remote_path

unfoldable pub status_request : GithubApi → String → String → String → String → String → Request
status_request api remote_path sha state description target_url =
    posted api (append (append (repo_url remote_path) "/statuses/") sha) (
      object (
        member "state" (text state) (
          member "description" (text description) (
            member "target_url" (text target_url)
              (member "context" (text "actuallyinspace runner") end)))))

unfoldable pub hooks_request : GithubApi → String → Request
hooks_request api remote_path = record {
  method = "GET";
  url = append (repo_url remote_path) "/hooks";
  headers = api_headers api;
  body = none;
}

abbrev pub ci_url : String
ci_url = "https://ci.butactuallyin.space"

unfoldable pub create_request : GithubApi → String → Request
create_request api remote_path = posted api (append (repo_url remote_path) "/hooks") (
    object (
      member "name" (text "web") (
        member "active" (boolean true) (
          member "events" (array (cons (text "push") nil)) (
            member "config"
              (object (
                member "url" (text (append (append ci_url "/") remote_path)) (
                  member "content_type" (text "json") (
                    member "secret" (text api.webhook_token)
                      (member "insecure_ssl" (text "0") end)))))
              end)))))

abbrev pub or_err : {A : Type 0} → String → Option A → Outcome A
or_err why none = err why
or_err why (some a) = ok a

-- The url of one hook.
unfoldable pub hook_url : Value → Outcome String
hook_url v = and_then (or_err "response array did not contain objects" (as_object v)) λ o.
    and_then (or_err "hook objects do not have config" (get o "config")) λ c.
      and_then (or_err "hook objects have config but it is not an object" (as_object c)) λ conf.
        and_then (or_err "config object does not have url" (get conf "url"))
          λ u. or_err "config url has url but it not a string" (as_str u)

-- The loop over the hooks: it ends at the first that is ours, or that cannot be read.
unfoldable pub any_ours : Items → Outcome Bool
unfolding hook_url
any_ours nil = ok false
any_ours (cons v vs) =
    let rest = any_ours vs in
    and_then (hook_url v) λ url. if starts_with url ci_url then ok true else rest

abbrev as_array : Value → Option Items
as_array (array items) = some items
as_array Value.null = none
as_array (boolean _) = none
as_array (Value.number _) = none
as_array (text _) = none
as_array (object _) = none

abbrev pub labelled : {A : Type 0} → String → Outcome A → Outcome A
labelled why (ok a) = ok a
labelled why (err e) = err (append why e)
labelled why (panic e) = panic e

module _ (send : Request → Outcome Response) (from_slice : String → Outcome Value) where
  -- `post_status`, whose answer its callers judge.
  unfoldable pub post_status :
      GithubApi → String → String → String → String → String → Outcome Response
  unfolding status_request
  post_status api remote_path sha state description target_url =
      send (status_request api remote_path sha state description target_url)

  abbrev hooks_of : String → Response → Outcome Bool
  hooks_of url r =
      if r.status == 200
      then (and_then (labelled "failed to fetch response body for webhooks: " r.body) λ body.
          and_then (labelled "could not parse response body: " (from_slice body))
            λ v. and_then (or_err "response json was not an array" (as_array v)) any_ours)
      else err (append "got non-OK response trying to look up webhooks on " url)

  unfoldable pub has_ci_webhook : GithubApi → String → Outcome Bool
  unfolding hooks_request any_ours
  has_ci_webhook api remote_path =
      and_then (labelled "failed to list webhooks: " (send (hooks_request api remote_path)))
        (hooks_of (append (repo_url remote_path) "/hooks"))

  abbrev created_by : String → Outcome Response → Outcome (Unit {0})
  created_by remote_path (ok r) =
      if r.status == 200 || r.status == 201
      then ok tt
      else err (append "got non-OK response trying to look up webhooks on github.com/" remote_path)
  created_by remote_path (err e) = err (append "failed to send request to create push webhook: " e)
  created_by remote_path (panic e) = panic e

  unfoldable pub create_ci_webhook : GithubApi → String → Outcome (Unit {0})
  unfolding create_request
  create_ci_webhook api remote_path = created_by remote_path (send (create_request api remote_path))
