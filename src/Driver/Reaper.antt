-- ===== src/Driver/Reaper.antt =====
-- `old_task_reaper` of ci-driver/src/main.rs.
pub mod Removal
pub mod Spares
pub mod Stale
use build_o_tron.Base.{
  ℕ, suc, ◌-◌, String, Bool, true, false, Option, none, some, List, [], ◌∷◌, Outcome, ok, err,
  panic, Action, ◌>>=◌, ◌>>◌, pure, expect, select, ltb, if◌then◌else◌, sub_u64,
}
use build_o_tron.Core.Sql.{Run, RunState}
use build_o_tron.Core.DbCtx.Lock.{DbCtx}
use build_o_tron.Core.DbCtx.Jobs.{lift}
use build_o_tron.Core.DbCtx.Runs.{get_active_runs, reap_task}
use build_o_tron.Driver.Reaper.Removal.{remove_active}

-- The closure of the `filter`: a run that should be worked on and is not.
abbrev pub stale : RunState → Option ℕ → ℕ → Bool
stale RunState.started none threshold = true
stale RunState.started (some start_time) threshold = ltb start_time threshold
stale RunState.pending start_time threshold = false
stale RunState.finished start_time threshold = false
stale RunState.error start_time threshold = false
stale RunState.invalid start_time threshold = false

unfoldable pub is_stale : ℕ → Run → Bool
is_stale threshold r = stale r.state r.start_time threshold

-- The last loop: `reap_task` for each stale run.
unfoldable pub reap_all : List Run → Action DbCtx (Unit {0})
unfolding reap_task
reap_all [] = pure tt
reap_all (r ∷ rs) = do expect "works" (reap_task r.id); reap_all rs

-- `old_task_reaper`, with the keys of `ACTIVE_TASKS` and the clock.
unfoldable pub old_task_reaper : List ℕ → ℕ → Action DbCtx (Unit {0})
unfolding get_active_runs is_stale reap_all remove_active
old_task_reaper active now = do
  runs ← get_active_runs
  let left = remove_active active runs
  threshold ← lift (sub_u64 now 60000)
  reap_all (select (is_stale threshold) left)
