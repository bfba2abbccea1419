-- ===== src/Core/DbCtx/Artifacts.antt =====
-- The methods of ci-lib-core/src/dbctx.rs on artifacts and metrics, and the insert of
-- `reserve_artifact` (ci-lib-native/src/dbctx_ext.rs).
pub mod Metrics
use build_o_tron.Base.{
  ℕ, String, Bool, true, false, ◌&&◌, ◌||◌, Option, none, some, List, Outcome, ok, Action, any,
  first?, select, update, take, order_desc, ◌==◌, ◌=?◌, if◌then◌else◌,
}
use mathlib.Core.Option
use build_o_tron.Base.Like.{like}
use build_o_tron.Core.Sql.{ArtifactRecord, MetricRecord}
use build_o_tron.Core.Table.{Table, insert, next_id, update_where}
use build_o_tron.Core.Db.{Db}
use build_o_tron.Core.DbCtx.Lock.{DbCtx, locked}

-- The insert of `reserve_artifact`; `now` is the clock.
unfoldable pub add_artifact : ℕ → ℕ → String → String → Action DbCtx ℕ
add_artifact now run_id name desc = locked λ db. (
  ok (next_id db.artifacts),
  record db {
    artifacts =
        insert
          (λ i. record {
            id = i;
            run_id = run_id;
            name = name;
            desc = desc;
            created_time = now;
            completed_time = none;
          })
          db.artifacts;
  },
)

-- `update artifacts set completed_time=?1 where id=?2`
unfoldable pub finalize_artifact : ℕ → ℕ → Action DbCtx (Unit {0})
finalize_artifact now artifact_id = locked λ db. (
  ok tt,
  record db {
    artifacts =
        update_where (λ (a : ArtifactRecord). a.id == artifact_id)
          (λ a. record a { completed_time = some now }) db.artifacts;
  },
)

-- `ARTIFACT_BY_ID`
unfoldable pub lookup_artifact : ℕ → ℕ → Action DbCtx (Option ArtifactRecord)
lookup_artifact run_id artifact_id = locked λ db. (
  ok (first? (λ (a : ArtifactRecord). a.id == artifact_id && a.run_id == run_id) db.artifacts.rows),
  db,
)

-- The `where` of `LAST_ARTIFACTS_FOR_RUN`: the run's artifacts that hold captured output.
abbrev pub is_output : ℕ → ArtifactRecord → Bool
is_output run a = a.run_id == run && (like "%(stderr)%" a.name || like "%(stdout)%" a.name)

-- `LAST_ARTIFACTS_FOR_RUN`: `… order by id desc limit ?2;`
abbrev pub run_outputs : ℕ → Option ℕ → Db → List ArtifactRecord
run_outputs run limit db =
    take (Option.get_or limit 65535)
      (order_desc (λ (a : ArtifactRecord). some a.id) (select (is_output run) db.artifacts.rows))

unfoldable pub artifacts_for_run : ℕ → Option ℕ → Action DbCtx (List ArtifactRecord)
unfolding like
artifacts_for_run run limit = locked λ db. (ok (run_outputs run limit db), db)

abbrev pub is_metric : ℕ → String → MetricRecord → Bool
is_metric run_id name m = m.run_id == run_id && m.name =? name

-- `insert_metric`: `… on conflict (run_id, name) do update set value=excluded.value`, on a table that is
-- unique in these two; on the table of `CREATE_METRICS_TABLE` it panics.
unfoldable pub insert_metric : ℕ → String → String → Action DbCtx (Unit {0})
insert_metric run_id name value = locked λ db. (
  ok tt,
  (if any (is_metric run_id name) db.metrics.rows
      then record db {
        metrics = update_where (is_metric run_id name) (λ m. record m { value = value }) db.metrics;
      }
      else record db {
        metrics =
            insert (λ i. record { id = i; run_id = run_id; name = name; value = value }) db.metrics;
      }),
)

-- `METRICS_FOR_RUN`: `… where run_id=?1 order by id asc;`
abbrev pub run_metrics : ℕ → Db → List MetricRecord
run_metrics run db = select (λ (m : MetricRecord). m.run_id == run) db.metrics.rows

unfoldable pub metrics_for_run : ℕ → Action DbCtx (List MetricRecord)
metrics_for_run run = locked λ db. (ok (run_metrics run db), db)
