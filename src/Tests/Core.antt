-- ===== src/Tests/Core.antt =====
-- The theorems on ci-lib-core at concrete inputs.
use build_o_tron.Base.{◌≡◌, ◌↔◌, refl, true, false, none, some, [], ◌∷◌, ok, err, any, arith}
use build_o_tron.Core.Sql.{TokenValidity, NameState}
use build_o_tron.Core.Db.{Db, CommitNameRow, empty_db}
use build_o_tron.Core.DbCtx.Commits.{best_name, job_for_commit}
use build_o_tron.Core.DbCtx.Commits.NiceName.{best_name-shown_row}
use build_o_tron.Core.DbCtx.Runs.{update_run, set_started, run_for_token}
use build_o_tron.Core.DbCtx.Runs.Token.{run_for_token-set_started}
use build_o_tron.Core.DbCtx.Hosts.{host_row, same_unique, same_host, find_or_add_host}
use build_o_tron.Core.DbCtx.Hosts.Identity.{find_or_add_host-fails_iff}
use build_o_tron.Core.DbCtx.Artifacts.{insert_metric}
use build_o_tron.Core.DbCtx.Artifacts.Metrics.{metric_value, metric_value-insert}
use build_o_tron.Core.DbCtx.Jobs.{new_job}
use build_o_tron.Core.DbCtx.Jobs.Commits.{job_for_commit-new_job}
use build_o_tron.Tests.Data.{open_ctx, db_with, waiting_run, waiting_ctx, started_ctx, host}

abbrev stale_row : CommitNameRow
stale_row = record { id = 1; commit_id = 1; name = "old"; name_state = 1 }

abbrev fresh_row : CommitNameRow
fresh_row = record { id = 2; commit_id = 1; name = "main"; name_state = 0 }

best_name-shown_row_example :
    best_name none (stale_row ∷ fresh_row ∷ [])
    ≡ ok (some (record { name = "main"; state = NameState.fresh }))
best_name-shown_row_example =
    best_name-shown_row (stale_row ∷ fresh_row ∷ []) (ground arith, (ground arith, tt))

run_for_token-set_started_example :
    (run_for_token 2500 "t"
      (open_ctx (update_run 1 (set_started 2000 1 "dir" "t") (db_with waiting_run)))).0
    ≡ ok (some (1, some "dir", TokenValidity.valid))
run_for_token-set_started_example =
    run_for_token-set_started waiting_ctx 1 2000 2500 1 "dir" "t" waiting_run refl refl refl

abbrev db_with_host : Db
unfolding host_row
db_with_host = record empty_db { hosts = record { rows = host_row (host 1) 1 ∷ []; seq = 1 } }

find_or_add_host-fails_iff_example :
    ((find_or_add_host (host 2) db_with_host).0 ≡ err "Query returned no rows") ↔ (
      (any (same_unique (host 2)) db_with_host.hosts.rows ≡ true)
      × (any (same_host (host 2)) db_with_host.hosts.rows ≡ false))
find_or_add_host-fails_iff_example = find_or_add_host-fails_iff (host 2) db_with_host

metric_value-insert_example :
    metric_value 1 "size" (insert_metric 1 "size" "42" started_ctx).1.db.metrics.rows ≡ some "42"
metric_value-insert_example = metric_value-insert 1 1 "size" "size" "42" started_ctx refl

job_for_commit-new_job_example :
    let after = new_job 3000 1 "f00" none none waiting_ctx in
    (after.0 ≡ ok (2, 2)) × ((job_for_commit "f00" after.1).0 ≡ ok (some 2))
job_for_commit-new_job_example = job_for_commit-new_job 3000 1 "f00" none none waiting_ctx refl refl
