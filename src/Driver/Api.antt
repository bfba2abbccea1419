-- ===== src/Driver/Api.antt =====
-- `handle_artifact` and `handle_next_job` of ci-driver/src/main.rs, with `reserve_artifact` of
-- ci-lib-native/src/dbctx_ext.rs.
pub mod Guards
pub mod Upload
use build_o_tron.Base.{
  ℕ, String, Bool, false, Option, none, some, List, [], ◌∷◌, ◌++◌, Outcome, ok, err, panic, Action,
  ◌>>=◌, pure, abort, expect, length, leb, ◌=?◌, if◌then◌else◌,
}
use build_o_tron.Core.Protocol.{ClientProto, new_task_please}
use build_o_tron.Core.Sql.{TokenValidity}
use build_o_tron.Base.Header.{Header, text, opaque}
use build_o_tron.Core.DbCtx.Lock.{DbCtx}
use build_o_tron.Core.DbCtx.Runs.{run_for_token}
use build_o_tron.Core.DbCtx.Artifacts.{add_artifact, finalize_artifact}
use build_o_tron.Core.DbCtx.Hosts.{id_for_host}
use build_o_tron.Driver.Client.{RunnerClient, Chunk}

-- The status codes that the two handlers answer with.
pub data Status : Type 0 where
  ok_200 bad_request internal_server_error misdirected_request im_a_teapot : Status

-- The three headers of an artifact's request.
pub record ArtifactRequest : Type 0 where
  pub task_token : Option Header
  pub artifact_name : Option Header
  pub artifact_desc : Option Header

-- What a file system does with `artifacts/<run>/<artifact>`, opened by `create_new`.
abbrev pub CreateNew : Type 0
CreateNew = ℕ → ℕ → Outcome (Unit {0})

abbrev pub or_reject : Option Header → (String → Action DbCtx Status) → Action DbCtx Status
or_reject none k = pure bad_request
or_reject (some (text t)) k = k t
or_reject (some opaque) k = abort "valid string"

abbrev reserved : Outcome (Unit {0}) → ℕ → Outcome ℕ
reserved (ok u) id = ok id
reserved (err e) id = err e
reserved (panic e) id = panic e

-- `reserve_artifact`: the row is there before the file is opened, and stays if that fails.
unfoldable pub reserve_artifact : CreateNew → ℕ → ℕ → String → String → Action DbCtx ℕ
unfolding add_artifact
reserve_artifact create now run name desc = do
  id ← add_artifact now run name desc
  λ ctx. (reserved (create run id) id, ctx)

-- The match on `reserve_artifact`'s result; the body is stored by a task of its own.
abbrev pub answer : Outcome ℕ → Outcome Status
answer (ok id) = ok ok_200
answer (err e) = ok internal_server_error
answer (panic e) = panic e

abbrev accepted : Action DbCtx ℕ → Action DbCtx Status
accepted m ctx = let (r, ctx') = m ctx in (answer r, ctx')

abbrev pub with_valid_token :
    Option (ℕ × Option String × TokenValidity) → (ℕ → Action DbCtx Status) → Action DbCtx Status
with_valid_token none k = pure bad_request
with_valid_token (some (run, path, TokenValidity.expired)) k = pure bad_request
with_valid_token (some (run, path, TokenValidity.invalid)) k = pure bad_request
with_valid_token (some (run, none, TokenValidity.valid)) k = pure bad_request
with_valid_token (some (run, some path, TokenValidity.valid)) k = k run

-- The rest of `handle_artifact`, for the run that the token names.
unfoldable pub store_artifact : CreateNew → ℕ → ArtifactRequest → ℕ → Action DbCtx Status
unfolding reserve_artifact
store_artifact create now request run = or_reject request.artifact_name λ name.
    or_reject request.artifact_desc λ desc. accepted (reserve_artifact create now run name desc)

-- `handle_artifact`; `checked` and `now` are the clock at the token's test and at the insert.
unfoldable pub handle_artifact : CreateNew → ℕ → ℕ → ArtifactRequest → Action DbCtx Status
unfolding run_for_token store_artifact
handle_artifact create checked now request = or_reject request.task_token λ token. do
  found ← expect "called `Result::unwrap()` on an `Err` value" (run_for_token checked token)
  with_valid_token found (store_artifact create now request)

-- The task that `handle_artifact` spawns, after `store_all` has ended well.
unfoldable pub store_done : ℕ → ℕ → Action DbCtx (Unit {0})
unfolding finalize_artifact
store_done now id = finalize_artifact now id

-- The driver as `handle_next_job` sees it: the database, `AUTH_SECRET`, and the runners that wait in
-- the channel, whose capacity is 8, and whose receiver may be gone.
pub record Lobby : Type 0 where
  pub ctx : DbCtx
  pub auth_secret : Option String
  pub waiting : List RunnerClient
  pub receiver_gone : Bool

abbrev pub channel_capacity : ℕ
channel_capacity = 8

abbrev text_or_empty : Header → String
text_or_empty (text t) = t
text_or_empty opaque = ""

-- `Some(token.to_str().unwrap_or("")) != AUTH_SECRET…`
unfoldable pub authorized : Option String → Header → Bool
authorized none token = false
authorized (some secret) token = text_or_empty token =? secret

-- What `handle_next_job` reads of the body's first chunk.
pub data FirstChunk : Type 0 where
  request : ClientProto → FirstChunk
  unparsed : FirstChunk
  not_utf8 : FirstChunk
  broken : FirstChunk
  absent : FirstChunk

abbrev pub on_lobby : {A : Type 0} → Action DbCtx A → Action Lobby A
on_lobby m l = let (r, ctx) = m l.ctx in (r, record l { ctx = ctx })

-- `RunnerClient::new`, with the token of `token_for_job`.
abbrev pub new_client : List Chunk → List Bool → Option (List String) → ℕ → String → RunnerClient
new_client rx tx accepted host_id token = record {
  rx = rx;
  tx_open = tx;
  sent = [];
  host_id = host_id;
  build_token = token;
  accepted_sources = accepted;
}

-- `try_send`
abbrev pub enqueue : RunnerClient → Action Lobby Status
enqueue c l =
    if l.receiver_gone
    then (panic "client holder is gone?", l)
    else if leb channel_capacity (length l.waiting)
    then (ok im_a_teapot, l)
    else (ok ok_200, record l { waiting = l.waiting ++ (c ∷ []) })

-- The `match request`; `token` is what `/dev/urandom` gave.
abbrev pub admit : List Chunk → List Bool → String → ClientProto → Action Lobby Status
admit rx tx token (new_task_please pushers host_info) = do
  host_id ← expect "can get a host info id" (on_lobby (id_for_host host_info))
  enqueue (new_client rx tx pushers host_id token)
admit rx tx token _ = pure misdirected_request

abbrev pub first_of_body : FirstChunk → List Chunk → List Bool → String → Action Lobby Status
first_of_body (request m) rx tx token = admit rx tx token m
first_of_body unparsed rx tx token = pure misdirected_request
first_of_body not_utf8 rx tx token = abort "called `Result::unwrap()` on an `Err` value"
first_of_body broken rx tx token = abort "chunk exists"
first_of_body absent rx tx token = abort "request chunk"

-- `handle_next_job`
unfoldable pub handle_next_job :
    Option Header → FirstChunk → List Chunk → List Bool → String → Action Lobby Status
unfolding authorized id_for_host
handle_next_job none body rx tx token l = (ok bad_request, l)
handle_next_job (some header) body rx tx token l =
    if authorized l.auth_secret header
    then first_of_body body rx tx token l
    else (ok bad_request, l)
