-- ===== src/Server/Metrics.antt =====
-- `summarize_job_metrics`, `job_metrics_to_html_table` and `HostDesc` of ci-web-server/src/main.rs.
pub mod Names
use build_o_tron.Base.{
  ℕ, ◌+◌, ◌*◌, ◌/◌, ◌%◌, String, Bool, true, false, ◌&&◌, Option, none, some, List, [], ◌∷◌, ◌++◌,
  Outcome, ok, err, panic, Action, ◌>>=◌, ◌>>◌, pure, expect, any, map, ◌=?◌, if◌then◌else◌,
  decimal, join,
}
use build_o_tron.Core.Sql.{MetricRecord, Run}
use build_o_tron.Core.Db.{RunRow}
use build_o_tron.Core.DbCtx.Lock.{DbCtx}
use build_o_tron.Core.DbCtx.PerHost.{runs_for_job_one_per_host}
use build_o_tron.Core.DbCtx.Artifacts.{metrics_for_run}
use build_o_tron.Core.DbCtx.Hosts.{host_model_info}

pub record HostDesc : Type 0 where
  pub hostname : String
  pub cpu_desc : String
  pub cpu_max_freq_khz : ℕ

-- The `match` of `HostDesc::from_parts`.
unfoldable pub cpu_desc : String → String → String → String
cpu_desc vendor family model =
    if vendor =? "Arm Limited" && family =? "8" && model =? "0xd03"
    then "aarch64 A53"
    else if vendor =? "Arm Limited" && family =? "8" && model =? "0xd0c"
    then "aarch64 Neoverse N1"
    else if vendor =? "GenuineIntel" && family =? "6" && model =? "85"
    then "x86_64 Skylake"
    else if vendor =? "GenuineIntel" && family =? "6" && model =? "58"
    then "x86_64 Ivy Bridge"
    else if vendor =? "AuthenticAMD" && family =? "23" && model =? "113"
    then "x86_64 Matisse"
    else join "" ("unknown " ∷ vendor ∷ ":" ∷ family ∷ ":" ∷ model ∷ [])

unfoldable pub from_parts : String → String → String → String → ℕ → HostDesc
unfolding cpu_desc
from_parts hostname vendor family model freq = record {
  hostname = hostname;
  cpu_desc = cpu_desc vendor family model;
  cpu_max_freq_khz = freq;
}

-- A `HashMap<String, String>`: the newest entry of a key is the one that counts.
abbrev pub MetricsMap : Type 0
MetricsMap = List (String × String)

unfoldable pub lookup : String → MetricsMap → Option String
lookup k [] = none
lookup k ((j, v) ∷ m) = if j =? k then some v else lookup k m

pub record MetricsInfo : Type 0 where
  pub all_names : List String
  pub all_metrics : List (MetricsMap × HostDesc)

abbrev pub contains : List String → String → Bool
contains names name = any (λ n. n =? name) names

-- The loop over a run's metrics: a name that is new is put at the end of `all_names`.
unfoldable pub add_metrics : List String → MetricsMap → List MetricRecord → List String × MetricsMap
add_metrics names values [] = (names, values)
add_metrics names values (m ∷ ms) =
    add_metrics (if contains names m.name then names else names ++ (m.name ∷ []))
      ((m.name, m.value) ∷ values) ms

abbrev pub host_of : Option ℕ → Action DbCtx (String × String × String × String × ℕ)
host_of (some id) = expect "called `Result::unwrap()` on an `Err` value" (host_model_info id)
host_of none = pure ("unknown", "unknown", "0", "0", 0)

-- The closure of the `map` over the runs.
unfoldable pub add_run : List String → Run → Action DbCtx (List String × MetricsMap × HostDesc)
unfolding add_metrics from_parts host_model_info metrics_for_run
add_run names run = do
  metrics ← expect "called `Result::unwrap()` on an `Err` value" (metrics_for_run run.id)
  (hostname, vendor, family, model, freq) ← host_of run.host_id
  let found = add_metrics names [] metrics
  pure (found.0, found.1, from_parts hostname vendor family model freq)

unfoldable pub add_runs :
    List String → List (MetricsMap × HostDesc) → List Run → Action DbCtx MetricsInfo
unfolding add_run
add_runs names done [] = pure (record { all_names = names; all_metrics = done })
add_runs names done (run ∷ runs) = do
  (names', values, host) ← add_run names run
  add_runs names' (done ++ ((values, host) ∷ [])) runs

-- `summarize_job_metrics`. SQLite chooses a run for each host.
unfoldable pub summarize_job_metrics :
    (RunRow → List RunRow → RunRow) → ℕ → Action DbCtx MetricsInfo
unfolding add_runs runs_for_job_one_per_host
summarize_job_metrics choose job_id = do
  runs ← runs_for_job_one_per_host choose job_id
  add_runs [] [] runs

-- `{:.3}` of the frequency in GHz, rounded as the parameter does it.
abbrev host_cell : (ℕ → String) → MetricsMap × HostDesc → String
host_cell ghz (_, h) =
    join "" (
      "<th>" ∷ h.hostname ∷ "</br>" ∷ h.cpu_desc ∷ " @ " ∷ ghz h.cpu_max_freq_khz ∷ "GHz</th>" ∷ [])

abbrev or_empty : Option String → String
or_empty none = ""
or_empty (some v) = v

-- A row has a cell for each run, empty where the run lacks the metric.
unfoldable pub metric_cells : String → List (MetricsMap × HostDesc) → List String
unfolding lookup
metric_cells name [] = []
metric_cells name ((values, _) ∷ rest) = or_empty (lookup name values) ∷ metric_cells name rest

abbrev metric_row : List (MetricsMap × HostDesc) → String → String
metric_row metrics name = join "" (
    "<tr><td>"
    ∷ name
    ∷ "</td>"
    ∷ join "" (map (λ v. join "" ("<td>" ∷ v ∷ "</td>" ∷ [])) (metric_cells name metrics))
    ∷ "</tr>\n"
    ∷ [])

abbrev html_table : (ℕ → String) → List String → List (MetricsMap × HostDesc) → Option String
html_table ghz names [] = none
html_table ghz names (m ∷ ms) = some (
    join "" (
      "<div>\n<h3>metrics</h3>\n<table style='font-family: monospace;'>\n"
      ∷ "<tr><th>name</th>"
      ∷ join "" (map (host_cell ghz) (m ∷ ms))
      ∷ "</tr>\n"
      ∷ join "" (map (metric_row (m ∷ ms)) names)
      ∷ "</table>\n</div>\n"
      ∷ []))

unfoldable pub job_metrics_to_html_table : (ℕ → String) → MetricsInfo → Option String
unfolding metric_cells
job_metrics_to_html_table ghz info = html_table ghz info.all_names info.all_metrics
