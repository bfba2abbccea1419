-- ===== src/Lifecycle/Invariant.antt =====
-- What the moves of the runs keep of each row.
use build_o_tron.Base.{
  ℕ, suc, ◌≤◌, ◌≡◌, ◌≢◌, ◌⊎◌, refl, String, Option, none, some, All, arith, inl, inr, Bool-cases,
  ◌=?◌, if◌then◌else◌,
}
use build_o_tron.Core.Protocol.{TaskInfo}
use build_o_tron.Core.Sql.{RunState, JobResult, run_state_code, job_result_code}
use build_o_tron.Core.Table.{
  Table, update_where, empty, IsKeyed, All-append, All-update, insert-IsKeyed, update_where-IsKeyed,
}
use build_o_tron.Core.Db.{RunRow}
use build_o_tron.Core.DbCtx.Runs.{fresh_run, set_started, set_completed, set_reaped}
use build_o_tron.Core.DbCtx.Runs.Queue.{is_run}
use build_o_tron.Native.Notifier.{text_of}
use build_o_tron.Driver.Session.{verdict, result_of}
use build_o_tron.Lifecycle.{Move, Moves, unmoved, ◌then◌, queued, started, completed, reaped}

-- The columns that `activate_run` writes: all are NULL, or none is.
pub data Activation : Option ℕ → Option ℕ → Option String → Option String → Type 0 where
  never : Activation none none none none
  once :
      (now host_id : ℕ) (path token : String)
      → Activation (some now) (some host_id) (some path) (some token)

-- What a row of `runs` says in each of its states.
pub record IsConsistent (r : RunRow) : Type 0 where
  pub known : r.state ≤ 4
  pub activation : Activation r.started_time r.host_id r.artifacts_path r.build_token
  -- A pending run is as `new_run` made it.
  pub waiting : r.state ≡ 0 → r ≡ fresh_run r.created_time r.job_id r.host_preference r.id
  pub underway : r.state ≡ 1 → r.started_time ≢ none
  pub passed :
      r.state ≡ 2
      → (r.complete_time ≢ none) × (r.build_result ≡ some (job_result_code JobResult.pass))
  pub failed :
      r.state ≡ 3
      → (r.complete_time ≢ none) × (r.build_result ≡ some (job_result_code JobResult.fail))
  pub lost : r.state ≡ 4 → r.final_status ≡ some "lost signal"

fresh_run-IsConsistent :
    (now job_id : ℕ) (host : Option ℕ) (id : ℕ) → IsConsistent (fresh_run now job_id host id)
unfolding run_state_code
fresh_run-IsConsistent now job_id host id = record {
  known = omega arith;
  activation = never;
  waiting = λ _. refl;
  underway = λ h. cc h;
  passed = λ h. cc h;
  failed = λ h. cc h;
  lost = λ h. cc h;
}

set_started-IsConsistent :
    (now host_id : ℕ) (path token : String) (r : RunRow)
    → IsConsistent (set_started now host_id path token r)
unfolding set_started
set_started-IsConsistent now host_id path token r = record {
  known = omega arith;
  activation = once now host_id path token;
  waiting = λ h. cc h;
  underway = λ _ e. cc e;
  passed = λ h. cc h;
  failed = λ h. cc h;
  lost = λ h. cc h;
}

set_reaped-IsConsistent : (r : RunRow) → IsConsistent r → IsConsistent (set_reaped r)
unfolding set_reaped
set_reaped-IsConsistent r c = record {
  known = omega arith;
  activation = c.activation;
  waiting = λ h. cc h;
  underway = λ h. cc h;
  passed = λ h. cc h;
  failed = λ h. cc h;
  lost = λ _. refl;
}

-- The two ends of a run: the state and the result that the driver may record together.
abbrev pub Ends : RunState → JobResult → Type 0
Ends state result =
    ((state ≡ RunState.finished) × (result ≡ JobResult.pass))
    ⊎ ((state ≡ RunState.error) × (result ≡ JobResult.fail))

pub verdict-Ends : (info : TaskInfo) → Ends (verdict info).1 (result_of (verdict info).0)
unfolding verdict
verdict-Ends (TaskInfo.finished status) = elim (Bool-cases (status =? "pass")) [
  | inl y ↦ rw y (inl (refl, refl))
  | inr n ↦ rw n (inr (refl, refl))
]
verdict-Ends (TaskInfo.interrupted status description) = inr (refl, refl)

set_completed-IsConsistent :
    (now : ℕ) (state : RunState) (result : JobResult) (text : String) (r : RunRow)
    → Ends state result
    → IsConsistent r
    → IsConsistent (set_completed now state result text r)
unfolding set_completed run_state_code
set_completed-IsConsistent now state result text r (inl (e, f)) c = rw e (
    rw f (record {
      known = omega arith;
      activation = c.activation;
      waiting = λ h. cc h;
      underway = λ h. cc h;
      passed = λ _. ((λ h. cc h), refl);
      failed = λ h. cc h;
      lost = λ h. cc h;
    }))
set_completed-IsConsistent now state result text r (inr (e, f)) c = rw e (
    rw f (record {
      known = omega arith;
      activation = c.activation;
      waiting = λ h. cc h;
      underway = λ h. cc h;
      passed = λ h. cc h;
      failed = λ _. ((λ h. cc h), refl);
      lost = λ h. cc h;
    }))

-- Every row is consistent, and no two have the same id.
pub record IsSound (t : Table RunRow) : Type 0 where
  pub rows : All IsConsistent t.rows
  pub ids : IsKeyed (λ (r : RunRow). r.id) t

pub empty-IsSound : IsSound empty
empty-IsSound = record { rows = tt; ids = record { bounded = tt; ascending = tt } }

update-IsSound :
    (id : ℕ) (f : RunRow → RunRow) (t : Table RunRow)
    → ((r : RunRow) → IsConsistent r → IsConsistent (f r))
    → ((r : RunRow) → (f r).id ≡ r.id)
    → IsSound t
    → IsSound (update_where (is_run id) f t)
update-IsSound id f t keeps same h = record {
  rows = All-update IsConsistent (is_run id) f t.rows keeps h.rows;
  ids = update_where-IsKeyed (λ (r : RunRow). r.id) (is_run id) f t same h.ids;
}

Move-IsSound : {t u : Table RunRow} → Move t u → IsSound t → IsSound u
unfolding set_started set_completed set_reaped
Move-IsSound (queued {t} now job_id host) h = record {
  rows =
      All-append IsConsistent t.rows (fresh_run now job_id host (suc t.seq)) h.rows
        (fresh_run-IsConsistent now job_id host (suc t.seq));
  ids = insert-IsKeyed (λ (r : RunRow). r.id) (fresh_run now job_id host) t refl h.ids;
}
Move-IsSound (started {t} id now host_id path token) h =
    update-IsSound id (set_started now host_id path token) t
      (λ r _. set_started-IsConsistent now host_id path token r) (λ r. refl) h
Move-IsSound (completed {t} id now info) h =
    update-IsSound id _ t
      (λ r.
        set_completed-IsConsistent now (verdict info).1 (result_of (verdict info).0)
          (text_of (verdict info).0) r (verdict-Ends info))
      (λ r. refl) h
Move-IsSound (reaped {t} id) h =
    update-IsSound id set_reaped t set_reaped-IsConsistent (λ r. refl) h

pub Moves-IsSound : {t u : Table RunRow} → Moves t u → IsSound t → IsSound u
Moves-IsSound unmoved h = h
Moves-IsSound (m then ms) h = Moves-IsSound ms (Move-IsSound m h)
