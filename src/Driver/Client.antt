-- ===== src/Driver/Client.antt =====
-- `RunnerClient` of ci-driver/src/main.rs: the two streams to a runner, and what it accepts.
use Prim.Native.String.{◌++◌ as append}
use build_o_tron.Base.{
  ℕ, String, Bool, true, false, Option, none, some, List, [], ◌∷◌, ◌++◌, Outcome, ok, err, panic,
  Action, ◌>>=◌, ◌>>◌, pure, fail, any, ◌=?◌,
}
use build_o_tron.Core.Protocol.{ClientProto, RequestedJob, new_task}
use build_o_tron.Core.Sql.{Job}

-- What one turn of the request body's stream gives: a message; bytes that are no JSON, with serde's
-- error; JSON that is no message; or an error of the stream. The stream's end is the list's end.
pub data Chunk : Type 0 where
  message : ClientProto → Chunk
  not_json : String → Chunk
  not_message : String → Chunk
  broken : String → Chunk

-- What is written to the response body: a message, or the reply to `ArtifactCreate`.
pub data Outgoing : Type 0 where
  proto : ClientProto → Outgoing
  object_id : String → Outgoing

-- `rx` holds what the runner will send. `tx_open` has, for each send to come, whether the response
-- is still being read then; past its end it is not.
pub record RunnerClient : Type 0 where
  pub rx : List Chunk
  pub tx_open : List Bool
  pub sent : List Outgoing
  pub host_id : ℕ
  pub build_token : String
  pub accepted_sources : Option (List String)

abbrev pub push_out : Outgoing → RunnerClient → List Bool → Outcome (Unit {0}) × RunnerClient
push_out m c [] = (err "channel closed", c)
push_out m c (true ∷ later) = (ok tt, record c { tx_open = later; sent = c.sent ++ (m ∷ []) })
push_out m c (false ∷ later) = (err "channel closed", record c { tx_open = later })

-- `send`, `send_typed`
unfoldable pub send : Outgoing → Action RunnerClient (Unit {0})
send m c = push_out m c c.tx_open

-- `recv_typed::<ClientProto>`: `from_value(v).unwrap()` panics on JSON that is no message.
abbrev pub received : Chunk → Outcome (Option ClientProto)
received (message m) = ok (some m)
received (not_json e) = err e
received (not_message e) = panic e
received (broken e) = err (append "no client job: " e)

abbrev pub next_chunk : RunnerClient → List Chunk → Outcome (Option ClientProto) × RunnerClient
next_chunk c [] = (ok none, c)
next_chunk c (x ∷ later) = (received x, record c { rx = later })

unfoldable pub recv : Action RunnerClient (Option ClientProto)
recv c = next_chunk c c.rx

abbrev pub tested : Option ClientProto → Action RunnerClient (Unit {0})
tested (some ClientProto.pong) = pure tt
tested (some other) = fail "unexpected connection test response"
tested none = fail "client hung up"

-- `test_connection`
unfoldable pub test_connection : Action RunnerClient (Unit {0})
unfolding send recv
test_connection = do send (proto ClientProto.ping); answer ← recv; tested answer

abbrev contains : List String → String → Bool
contains l s = any (λ t. t =? s) l

abbrev pub accepts : Option String → Option (List String) → Bool
accepts source none = true
accepts none (some accepted) = false
accepts (some source) (some accepted) = contains accepted source

-- `will_accept`
unfoldable pub will_accept : RunnerClient → Job → Bool
will_accept c job = accepts job.source c.accepted_sources

abbrev pub task_for : RunnerClient → String → String → RequestedJob
task_for c url sha = record { commit = sha; remote_url = url; build_token = c.build_token }

-- The `match` of `submit` on the runner's answer: whether the job was taken, which `Ok(None)` is not.
abbrev pub answered : Option ClientProto → Action RunnerClient Bool
answered (some ClientProto.started) = pure true
answered (some other) = fail "client rejected job"
answered none = pure false

-- `submit`, up to the entry in `ACTIVE_TASKS` (`Session.submit`).
unfoldable pub offer : String → String → Action RunnerClient Bool
unfolding send recv
offer url sha c =
    (do send (proto (new_task (task_for c url sha))); answer ← recv; answered answer) c
