-- ===== src/Core/DbCtx/Runs.antt =====
-- The methods of ci-lib-core/src/dbctx.rs on runs, with the two updates that the driver writes.
pub mod Laws
pub mod Queue
pub mod Token
pub mod Read
use build_o_tron.Base.{
  ℕ, ◌+◌, ◌*◌, String, Bool, true, false, ◌||◌, ◌&&◌, Option, none, some, List, [], ◌∷◌, Outcome,
  ok, err, panic, Action, map, first?, select, order_desc, take, ltb, ◌==◌, ◌=?◌, holds, is_null,
  if◌then◌else◌,
}
use mathlib.Core.Option
use build_o_tron.Core.Sql.{
  PendingRun, Run, RunState, run_state_of, run_state_code, TokenValidity, job_result_code,
  JobResult,
}
use build_o_tron.Core.Table.{Table, insert, next_id, by_id, update_where}
use build_o_tron.Core.Db.{Db, RunRow}
use build_o_tron.Core.DbCtx.Lock.{DbCtx, locked}

-- `TOKEN_EXPIRY_MS`: half an hour.
abbrev pub token_expiry_ms : ℕ
token_expiry_ms = 1000 * 60 * 30

abbrev pub run_of : RunRow → RunState → Run
run_of r state = record {
  id = r.id;
  job_id = r.job_id;
  artifacts_path = r.artifacts_path;
  state = state;
  host_id = r.host_id;
  create_time = r.created_time;
  start_time = r.started_time;
  complete_time = r.complete_time;
  build_token = r.build_token;
  run_timeout = r.run_timeout;
  build_result = r.build_result;
  final_text = r.final_status;
}

-- `row2run`: `state.try_into().unwrap()` panics on a number that is no state.
unfoldable pub row2run : RunRow → Outcome Run
row2run r = elim (run_state_of r.state) [
  | ok state ↦ ok (run_of r state)
  | err e ↦ panic e
  | panic e ↦ panic e
]

unfoldable pub rows2runs : List RunRow → Outcome (List Run)
unfolding row2run
rows2runs [] = ok []
rows2runs (r ∷ rows) =
    let rest = rows2runs rows in
    elim (row2run r) [
      | ok run ↦ elim rest [ ok runs ↦ ok (run ∷ runs) | err e ↦ err e | panic e ↦ panic e ]
      | err e ↦ err e
      | panic e ↦ panic e
    ]

-- The insert of `new_run`.
abbrev pub fresh_run : ℕ → ℕ → Option ℕ → ℕ → RunRow
fresh_run created job_id host_preference i = record {
  id = i;
  job_id = job_id;
  artifacts_path = none;
  state = run_state_code RunState.pending;
  host_id = none;
  build_token = none;
  created_time = created;
  started_time = none;
  complete_time = none;
  run_timeout = none;
  build_result = none;
  final_status = none;
  host_preference = host_preference;
}

unfoldable pub add_run : ℕ → ℕ → Option ℕ → Action Db PendingRun
add_run created job_id host_preference db = (
  ok (record { id = next_id db.runs; job_id = job_id; create_time = created }),
  record db { runs = insert (fresh_run created job_id host_preference) db.runs },
)

-- `new_run`; `now` is the clock.
unfoldable pub new_run : ℕ → ℕ → Option ℕ → Action DbCtx PendingRun
unfolding add_run
new_run now job_id host_preference = locked (add_run now job_id host_preference)

-- An update `… where id=?` of the table of runs.
abbrev pub update_run : ℕ → (RunRow → RunRow) → Db → Db
update_run id f db = record db { runs = update_where (λ (r : RunRow). r.id == id) f db.runs }

-- `update runs set final_status="lost signal", state=4 where id=?1;`
unfoldable pub set_reaped : RunRow → RunRow
set_reaped r = record r { final_status = some "lost signal"; state = 4 }

unfoldable pub reap_task : ℕ → Action DbCtx (Unit {0})
unfolding set_reaped
reap_task id = locked λ db. (ok tt, update_run id set_reaped db)

-- `activate_run` of ci-driver/src/main.rs:
-- `update runs set started_time=?1, host_id=?2, state=1, artifacts_path=?3, build_token=?4 where id=?5`
unfoldable pub set_started : ℕ → ℕ → String → String → RunRow → RunRow
set_started now host_id artifacts_path build_token r = record r {
  started_time = some now;
  host_id = some host_id;
  state = 1;
  artifacts_path = some artifacts_path;
  build_token = some build_token;
}

-- `ClientJob::run` of ci-driver/src/main.rs:
-- `update runs set complete_time=?1, state=?2, build_result=?3, final_status=?4 where id=?5`
unfoldable pub set_completed : ℕ → RunState → JobResult → String → RunRow → RunRow
unfolding run_state_code
set_completed now state result desc r = record r {
  complete_time = some now;
  state = run_state_code state;
  build_result = some (job_result_code result);
  final_status = some desc;
}

-- `now > time + timeout` decides between `Expired` and `Valid`; a run that was never started has no
-- valid token.
unfoldable pub validity : ℕ → Option ℕ → Option ℕ → TokenValidity
validity now none timeout = TokenValidity.invalid
validity now (some time) timeout =
    if ltb (time + Option.get_or timeout token_expiry_ms) now
    then TokenValidity.expired
    else TokenValidity.valid

abbrev pub has_token : String → RunRow → Bool
has_token token r = elim r.build_token [ none ↦ false | some t ↦ t =? token ]

-- `run_for_token`; `now` is the clock.
unfoldable pub run_for_token :
    ℕ → String → Action DbCtx (Option (ℕ × Option String × TokenValidity))
unfolding validity
run_for_token now token = locked λ db. (
  ok (
      Option.map
        (λ (r : RunRow). (r.id, r.artifacts_path, validity now r.started_time r.run_timeout))
        (first? (has_token token) db.runs.rows)),
  db,
)

-- `ACTIVE_RUNS`: `… from runs where state=1 or state=0;`
unfoldable pub get_active_runs : Action DbCtx (List Run)
unfolding rows2runs
get_active_runs =
    locked
      λ db. (rows2runs (select (λ (r : RunRow). r.state == 1 || r.state == 0) db.runs.rows), db)

-- The `where` of `PENDING_RUNS`: `state=0 and (host_preference=?1 or host_preference is null)`.
abbrev pub waits_for : Option ℕ → RunRow → Bool
waits_for host r =
    r.state == 0
    && ((elim host [ none ↦ false | some h ↦ holds r.host_preference h ])
        || is_null r.host_preference)

abbrev pub pending_run_of : RunRow → PendingRun
pending_run_of r = record { id = r.id; job_id = r.job_id; create_time = r.created_time }

-- `… order by created_time desc`: the newest run comes first.
abbrev pub pending_rows : Option ℕ → Db → List RunRow
pending_rows host db =
    order_desc (λ (r : RunRow). some r.created_time) (select (waits_for host) db.runs.rows)

unfoldable pub get_pending_runs : Option ℕ → Action DbCtx (List PendingRun)
get_pending_runs host = locked λ db. (ok (map pending_run_of (pending_rows host db)), db)

-- `LAST_RUN_FOR_JOB`: `… where job_id=?1 order by started_time desc limit 1;`
abbrev pub last_run_row : ℕ → Db → Option RunRow
last_run_row job_id db =
    first? (λ (r : RunRow). true)
      (order_desc (λ (r : RunRow). r.started_time)
        (select (λ (r : RunRow). r.job_id == job_id) db.runs.rows))

abbrev to_run : Option RunRow → Outcome (Option Run)
to_run none = ok none
to_run (some r) = elim (row2run r) [ ok run ↦ ok (some run) | err e ↦ err e | panic e ↦ panic e ]

unfoldable pub last_run_for_job : ℕ → Action DbCtx (Option Run)
unfolding row2run
last_run_for_job job_id = locked λ db. (to_run (last_run_row job_id db), db)
