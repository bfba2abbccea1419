-- ===== src/Server/PushEvent.antt =====
-- `parse_push_event` of ci-web-server/src/main.rs.
pub mod Shape
use build_o_tron.Base.{String, Option, none, some}
use build_o_tron.Server.Json.{Value, Members, as_object, as_str, get}

pub data GithubHookError : Type 0 where
  body_not_object : GithubHookError
  missing_element : String → GithubHookError
  bad_type : String → String → GithubHookError

pub record PushEvent : Type 0 where
  pub tip : String
  pub repo_name : String
  pub head_commit : Members
  pub pusher : Members
  pub ref_name : String

pub data GithubEvent : Type 0 where
  push : PushEvent → GithubEvent
  other : GithubEvent

pub data Parsed (A : Type 0) : Type 0 where
  parsed : A → Parsed A
  refused : GithubHookError → Parsed A

infixl 10 ◌>>=◌
abbrev pub ◌>>=◌ : {A B : Type 0} → Parsed A → (A → Parsed B) → Parsed B
parsed a >>= f = f a
refused e >>= f = refused e

-- `.ok_or(e)?`
abbrev pub ok_or : {A : Type 0} → GithubHookError → Option A → Parsed A
ok_or e none = refused e
ok_or e (some a) = parsed a

abbrev pub str_at : Members → String → String → Parsed String
str_at m key path = do
  v ← ok_or (missing_element path) (get m key)
  ok_or (bad_type path "str") (as_str v)

abbrev pub object_at : Members → String → Parsed Members
object_at m key = do
  v ← ok_or (missing_element key) (get m key)
  ok_or (bad_type key "obj") (as_object v)

unfoldable pub parse_push_event : Value → Parsed GithubEvent
parse_push_event value = do
  body ← ok_or body_not_object (as_object value)
  tip ← str_at body "after" "after"
  repository ← object_at body "repository"
  repo_name ← str_at repository "full_name" "repository/full_name"
  head_commit ← object_at body "head_commit"
  pusher ← object_at body "pusher"
  ref_name ← str_at body "ref" "ref"
  parsed (
      push (record {
        tip = tip;
        repo_name = repo_name;
        head_commit = head_commit;
        pusher = pusher;
        ref_name = ref_name;
      }))
