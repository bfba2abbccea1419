-- ===== src/Core/Db.antt =====
-- The tables of ci-lib-core/src/sql.rs as the statements of ci-lib-core/src/dbctx.rs use them: one
-- record for each kind of row, with the columns that a statement reads or writes. A column that may
-- be NULL is an option.
use build_o_tron.Base.{ℕ, String, Option}
use build_o_tron.Core.Sql.{MetricRecord, ArtifactRecord, Repo, Remote, Job}
use build_o_tron.Core.Table.{Table, empty}

pub record CommitRow : Type 0 where
  pub id : ℕ
  pub sha : String

pub record CommitNameRow : Type 0 where
  pub id : ℕ
  pub commit_id : ℕ
  pub name : String
  pub name_state : ℕ

-- `host_preference` is a column that `new_run` and `PENDING_RUNS` name, and that `CREATE_RUNS_TABLE` does
-- not make.
pub record RunRow : Type 0 where
  pub id : ℕ
  pub job_id : ℕ
  pub artifacts_path : Option String
  pub state : ℕ
  pub host_id : Option ℕ
  pub build_token : Option String
  pub created_time : ℕ
  pub started_time : Option ℕ
  pub complete_time : Option ℕ
  pub run_timeout : Option ℕ
  pub build_result : Option ℕ
  pub final_status : Option String
  pub host_preference : Option ℕ

pub record HostRow : Type 0 where
  pub id : ℕ
  pub hostname : String
  pub cpu_vendor_id : String
  pub cpu_model_name : String
  pub cpu_family : String
  pub cpu_model : String
  pub cpu_microcode : String
  pub cpu_max_freq_khz : ℕ
  pub cpu_cores : ℕ
  pub mem_total : String
  pub arch : String
  pub family : String
  pub os : String

pub record Db : Type 0 where
  pub artifacts : Table ArtifactRecord
  pub jobs : Table Job
  pub metrics : Table MetricRecord
  pub commits : Table CommitRow
  pub commit_names : Table CommitNameRow
  pub repos : Table Repo
  pub remotes : Table Remote
  pub runs : Table RunRow
  pub hosts : Table HostRow

-- A database without a row, with the tables as the statements of dbctx.rs take them to be. What
-- `create_tables` makes differs in two: its `runs` has no `host_preference`, and its `metrics` has
-- `job_id`, unique with the name, in place of `run_id`; on such tables `new_run`, `PENDING_RUNS` and
-- `insert_metric` fail.
abbrev pub empty_db : Db
empty_db = record {
  artifacts = empty;
  jobs = empty;
  metrics = empty;
  commits = empty;
  commit_names = empty;
  repos = empty;
  remotes = empty;
  runs = empty;
  hosts = empty;
}
