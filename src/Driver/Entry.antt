-- ===== src/Driver/Entry.antt =====
-- `make_api_server` and `main` of ci-driver/src/main.rs: what is served, and the loop that gives each
-- runner that asks for work a task of its own. Files, certificates and addresses are parameters.
use build_o_tron.Base.{ℕ, String, Option, none, some, List, [], ◌∷◌, Outcome, ok, err, panic}
use build_o_tron.Native.Notifier.{and_then}
use build_o_tron.Driver.Client.{RunnerClient}

pub data Handler : Type 0 where
  next_job artifact : Handler

-- The routes, all for POST, and how many runners can wait for a task.
pub record ApiServer : Type 0 where
  pub routes : List (String × Handler)
  pub capacity : ℕ

-- `make_api_server`
unfoldable pub make_api_server : ApiServer
make_api_server = record {
  routes = ("/api/next_job", Handler.next_job) ∷ ("/api/artifact", Handler.artifact) ∷ [];
  capacity = 8;
}

pub record DriverConfig : Type 0 where
  pub cert_path : String
  pub key_path : String
  pub config_path : String
  pub db_path : String
  pub server_addr : String
  pub auth_secret : String

-- What `main` uses of the world.
pub record Start : Type 0 where
  pub read_config : String → Option DriverConfig
  pub load_pem : String → String → Option (Unit {0})
  pub open_database : String → String → Outcome (Unit {0})
  pub create_tables : Outcome (Unit {0})
  pub parse_address : String → Option String

-- What runs once `main` is in its loop: the secret that requests must show, the server, and the reaper.
pub record Running : Type 0 where
  pub auth_secret : Option String
  pub server : ApiServer
  pub address : String

abbrev config_named : Option String → String
config_named none = "./driver_config.json"
config_named (some path) = path

abbrev or_panic : {A : Type 0} → String → Option A → Outcome A
or_panic why none = panic why
or_panic why (some a) = ok a

abbrev unwrapped : {A : Type 0} → Outcome A → Outcome A
unwrapped (ok a) = ok a
unwrapped (err e) = panic e
unwrapped (panic e) = panic e

-- `main` up to its loop, for the path that it is given, if any.
unfoldable pub start : Start → Option String → Outcome Running
unfolding make_api_server
start s argument =
    and_then (or_panic "valid json for DriverConfig" (s.read_config (config_named argument))) λ c.
      and_then
        (or_panic "called `Result::unwrap()` on an `Err` value" (s.load_pem c.cert_path c.key_path))
        λ _. and_then (s.open_database c.config_path c.db_path) λ _.
          and_then (unwrapped s.create_tables) λ _.
            and_then
              (or_panic "called `Result::unwrap()` on an `Err` value"
                (s.parse_address c.server_addr))
              λ address. ok (record {
                auth_secret = some c.auth_secret;
                server = make_api_server;
                address = address;
              })

-- What `channel.recv()` gives: a runner, or that all senders are gone.
pub data Received : Type 0 where
  candidate : RunnerClient → Received
  disconnected : Received

-- The loop of `main`, over what it receives: the runners for which `find_client_task` is spawned. A
-- closed channel is printed, and the loop goes on.
unfoldable pub spawned : List Received → List RunnerClient
spawned [] = []
spawned (candidate c ∷ later) = c ∷ spawned later
spawned (disconnected ∷ later) = spawned later
