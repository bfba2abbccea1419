-- ===== src/Tests/Data.antt =====
-- The data of the tests: a small database as a few commands leave it, and what
-- the world does in it.
use build_o_tron.Base.{ℕ, String, none, some, List, [], ◌∷◌, ok, Bool, false}
use build_o_tron.Core.Protocol.{HostInfo, RequestedJob}
use build_o_tron.Core.Sql.{Repo, Remote, Job}
use build_o_tron.Core.Db.{Db, RunRow, empty_db}
use build_o_tron.Core.DbCtx.Lock.{DbCtx}
use build_o_tron.Native.Notifier.{Outside, git_hub}
use build_o_tron.Driver.Client.{RunnerClient, Chunk}
use build_o_tron.Driver.Session.{Session, ClientJob}

abbrev pub one_repo : Repo
one_repo = record { id = 1; name = "yaxpeax-x86"; default_run_preference = none }

abbrev pub one_remote : Remote
one_remote = record {
  id = 1;
  repo_id = 1;
  remote_path = "iximeow/yaxpeax-x86";
  remote_api = "github";
  remote_url = "https://www.github.com/iximeow/yaxpeax-x86";
  remote_git_url = "https://www.github.com/iximeow/yaxpeax-x86.git";
  notifier_config_path = "github.json";
}

abbrev pub one_job : Job
one_job = record {
  id = 1;
  remote_id = 1;
  commit_id = 1;
  created_time = 1000;
  source = some "me@iximeow.net";
  run_preferences = none;
}

abbrev pub sha : String
sha = "0123456789abcdef0123456789abcdef01234567"

abbrev pub waiting_run : RunRow
waiting_run = record {
  id = 1;
  job_id = 1;
  artifacts_path = none;
  state = 0;
  host_id = none;
  build_token = none;
  created_time = 1000;
  started_time = none;
  complete_time = none;
  run_timeout = none;
  build_result = none;
  final_status = none;
  host_preference = none;
}

abbrev pub started_run : RunRow
started_run = record waiting_run {
  state = 1;
  host_id = some 1;
  started_time = some 2000;
  artifacts_path = some "/root/ixi_ci_server/artifacts/1";
  build_token = some "secret";
}

abbrev pub db_with : RunRow → Db
db_with run = record empty_db {
  repos = record { rows = one_repo ∷ []; seq = 1 };
  remotes = record { rows = one_remote ∷ []; seq = 1 };
  commits = record { rows = record { id = 1; sha = sha } ∷ []; seq = 1 };
  jobs = record { rows = one_job ∷ []; seq = 1 };
  runs = record { rows = run ∷ []; seq = 1 };
}

abbrev pub open_ctx : Db → DbCtx
open_ctx db = record { db = db; poisoned = false }

abbrev pub waiting_ctx : DbCtx
waiting_ctx = open_ctx (db_with waiting_run)

abbrev pub started_ctx : DbCtx
started_ctx = open_ctx (db_with started_run)

-- A world in which each config is GitHub's and each status arrives.
abbrev pub github_works : Outside
github_works = record {
  read_config = λ path. ok (git_hub "token" "hook");
  post_status = λ token repo sha state desc url. ok 201;
  send_mail = λ user password server from to subject. ok tt;
}

abbrev pub client_with : List Chunk → List Bool → RunnerClient
client_with rx tx = record {
  rx = rx;
  tx_open = tx;
  sent = [];
  host_id = 1;
  build_token = "secret";
  accepted_sources = none;
}

abbrev pub session_with : DbCtx → List Chunk → List Bool → Session
session_with ctx rx tx = record {
  ctx = ctx;
  active_tasks = [];
  notices = [];
  client = client_with rx tx;
}

abbrev pub one_client_job : ClientJob
one_client_job = record {
  sha = sha;
  task = record { id = 1; job_id = 1; create_time = 1000 };
  config_path = "config";
}

abbrev pub host : ℕ → HostInfo
host freq = record {
  hostname = "buildhost";
  cpu_info = record {
    model_name = "cpu";
    microcode = "0x1";
    cores = 8;
    vendor_id = "GenuineIntel";
    family = "6";
    model = "85";
    max_freq = freq;
  };
  memory_info = record { total = "64 kB"; available = "32 kB" };
  env_info = record { arch = "x86_64"; family = "unix"; os = "linux" };
}

abbrev pub request : RequestedJob
request = record { commit = sha; remote_url = "https://example.test/r.git"; build_token = "secret" }
