-- ===== src/Server/Entry.antt =====
-- `make_app_server`, `bind_server` and `main` of ci-web-server/src/main.rs: what is served where.
pub mod Tls
use build_o_tron.Base.{
  String, Bool, true, false, Option, none, some, List, [], ◌∷◌, ◌++◌, Outcome, ok, err, panic,
}
use build_o_tron.Server.Json.{Value, Members, text, object, get}

-- The handlers of the router, and the methods they are for.
pub data Handler : Type 0 where
  commit_status repo_summary repo_event get_artifact ci_index : Handler

pub data Method : Type 0 where
  get_method post_method : Method

-- A part of a route's path: a fixed one, or one that the handler is given.
pub data Segment : Type 0 where
  fixed : String → Segment
  given : String → Segment

pub record Route : Type 0 where
  pub path : List Segment
  pub method : Method
  pub handler : Handler

-- `make_app_server`
unfoldable pub make_app_server : List Route
make_app_server =
    record {
      path = given "owner" ∷ given "repo" ∷ given "sha" ∷ [];
      method = get_method;
      handler = Handler.commit_status;
    }
    ∷ record { path = given "owner" ∷ []; method = get_method; handler = Handler.repo_summary }
    ∷ record {
      path = given "owner" ∷ given "repo" ∷ [];
      method = post_method;
      handler = Handler.repo_event;
    }
    ∷ record {
      path = fixed "artifact" ∷ given "b" ∷ given "artifact_id" ∷ [];
      method = get_method;
      handler = Handler.get_artifact;
    }
    ∷ record { path = []; method = get_method; handler = Handler.ci_index }
    ∷ []

-- What a server is bound to: an address alone, or one with a certificate and its key.
pub data Bound : Type 0 where
  plain : String → Bound
  tls : String → String → String → Bound

abbrev pub address_of : Option Value → Outcome String
address_of (some (text address)) = ok address
address_of none = panic "no local address"
address_of (some other) = panic "invalid local address"

abbrev pub with_tls : String → Option Value → Option Value → Outcome Bound
with_tls address (some (text cert)) (some (text key)) = ok (tls address cert key)
with_tls address none none = ok (plain address)
with_tls address _ _ =
    panic "invalid local tls config: only one of `cert_path` or `key_path` has been provided"

abbrev pub bound_to : Members → Outcome String → Outcome Bound
bound_to map (ok address) = with_tls address (get map "cert_path") (get map "key_path")
bound_to map (err e) = err e
bound_to map (panic e) = panic e

-- `bind_server`, up to the serving.
unfoldable pub bind_server : Value → Outcome Bound
bind_server (text address) = ok (plain address)
bind_server (object map) = bound_to map (address_of (get map "address"))
bind_server other = panic "invalid server bind config"

abbrev pub at_address : Option Value → List (Outcome Bound)
at_address none = []
at_address (some conf) = bind_server conf ∷ []

-- `main`: a server for each of the two addresses that is set. One that panics does so in a task of its
-- own.
unfoldable pub servers : Option Value → Option Value → List (Outcome Bound)
unfolding bind_server
servers debug_addr server_addr = at_address debug_addr ++ at_address server_addr
