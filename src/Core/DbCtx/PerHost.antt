-- ===== src/Core/DbCtx/PerHost.antt =====
-- `runs_for_job_one_per_host` of ci-lib-core/src/dbctx.rs. `RUNS_FOR_JOB` groups the job's runs by their
-- host and names columns that the groups do not share: which run of a group it gives is SQLite's
-- choice, and a parameter here.
pub mod Distinct
use build_o_tron.Base.{
  ℕ, Bool, true, false, ◌&&◌, ◌||◌, Option, none, some, List, [], ◌∷◌, Outcome, Action, any, select,
  map, ◌==◌, leb, ltb, if◌then◌else◌, not,
}
use build_o_tron.Core.Sql.{Run}
use build_o_tron.Core.Db.{Db, RunRow}
use build_o_tron.Core.DbCtx.Lock.{DbCtx, locked}
use build_o_tron.Core.DbCtx.Runs.{rows2runs}

-- Two rows of one group; the rows without a host are one group.
abbrev pub same_group : Option ℕ → Option ℕ → Bool
same_group none none = true
same_group none (some b) = false
same_group (some a) none = false
same_group (some a) (some b) = a == b

abbrev pub on_host : Option ℕ → RunRow → Bool
on_host host r = same_group r.host_id host

-- A run of each host, chosen from its group: `seen` are the hosts of the rows before.
unfoldable pub choose_each :
    (RunRow → List RunRow → RunRow) → List (Option ℕ) → List RunRow → List RunRow
choose_each choose seen [] = []
choose_each choose seen (r ∷ rows) =
    let first =
      choose r (select (on_host r.host_id) rows) ∷ choose_each choose (r.host_id ∷ seen) rows in
    let rest = choose_each choose seen rows in
    if any (same_group r.host_id) seen then rest else first

-- `order by started_time desc, state asc`; NULL sorts below every number.
abbrev started_later : Option ℕ → Option ℕ → Bool
started_later (some a) (some b) = ltb b a
started_later (some a) none = true
started_later none b = false

abbrev pub not_behind : RunRow → RunRow → Bool
not_behind r q =
    started_later r.started_time q.started_time
    || not (started_later q.started_time r.started_time) && leb r.state q.state

abbrev pub insert_run : RunRow → List RunRow → List RunRow
insert_run r [] = r ∷ []
insert_run r (q ∷ qs) =
    let rest = insert_run r qs in if not_behind r q then r ∷ q ∷ qs else q ∷ rest

abbrev pub order_runs : List RunRow → List RunRow
order_runs [] = []
order_runs (r ∷ rows) = insert_run r (order_runs rows)

unfoldable pub runs_for_job_one_per_host :
    (RunRow → List RunRow → RunRow) → ℕ → Action DbCtx (List Run)
unfolding choose_each
runs_for_job_one_per_host choose job_id = locked λ db. (
  rows2runs (
      order_runs
        (choose_each choose [] (select (λ (r : RunRow). r.job_id == job_id) db.runs.rows))),
  db,
)
