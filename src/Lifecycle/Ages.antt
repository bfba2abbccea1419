-- ===== src/Lifecycle/Ages.antt =====
-- How the row of one run grows older, whatever the handlers of the service do.
use build_o_tron.Base.{
  ℕ, String, List, suc, ◌≡◌, ◌≢◌, refl, ◌∙◌, none, some, inl, inr, Bool-cases, if◌then◌else◌, ◌==◌,
}
use build_o_tron.Core.Sql.{run_state_code, RunState, JobResult}
use build_o_tron.Core.Table.{Table, update_where, by_id, by_id-append, by_id-update}
use build_o_tron.Core.Db.{Db, RunRow}
use build_o_tron.Core.DbCtx.Runs.{fresh_run, set_started, set_completed, set_reaped}
use build_o_tron.Core.DbCtx.Runs.Queue.{is_run}
use build_o_tron.Native.Notifier.{text_of}
use build_o_tron.Driver.Session.{verdict, result_of}
use build_o_tron.Driver.Session.Recorded.{find_run}
use build_o_tron.Lifecycle.{Move, Moves, unmoved, ◌then◌, queued, started, completed, reaped}
use build_o_tron.Lifecycle.Invariant.{Ends, verdict-Ends}
use build_o_tron.Lifecycle.System.{Task, Interleaving, Interleaving-Moves}

-- The same run, no younger: it is not pending again, and no time that it had is taken from it.
pub record Aged (r s : RunRow) : Type 0 where
  pub id : s.id ≡ r.id
  pub job_id : s.job_id ≡ r.job_id
  pub created_time : s.created_time ≡ r.created_time
  pub run_timeout : s.run_timeout ≡ r.run_timeout
  pub host_preference : s.host_preference ≡ r.host_preference
  pub begun : r.state ≢ 0 → s.state ≢ 0
  pub started : r.started_time ≢ none → s.started_time ≢ none
  pub complete : r.complete_time ≢ none → s.complete_time ≢ none

Aged-refl : (r : RunRow) → Aged r r
Aged-refl r = record {
  id = refl;
  job_id = refl;
  created_time = refl;
  run_timeout = refl;
  host_preference = refl;
  begun = λ h. h;
  started = λ h. h;
  complete = λ h. h;
}

Aged-trans : {r s t : RunRow} → Aged r s → Aged s t → Aged r t
Aged-trans a b = record {
  id = b.id ∙ a.id;
  job_id = b.job_id ∙ a.job_id;
  created_time = b.created_time ∙ a.created_time;
  run_timeout = b.run_timeout ∙ a.run_timeout;
  host_preference = b.host_preference ∙ a.host_preference;
  begun = λ h. b.begun (a.begun h);
  started = λ h. b.started (a.started h);
  complete = λ h. b.complete (a.complete h);
}

set_started-Aged :
    (now host_id : ℕ) (path token : String) (r : RunRow)
    → Aged r (set_started now host_id path token r)
unfolding set_started
set_started-Aged now host_id path token r = record {
  id = refl;
  job_id = refl;
  created_time = refl;
  run_timeout = refl;
  host_preference = refl;
  begun = λ _ e. cc e;
  started = λ _ e. cc e;
  complete = λ h. h;
}

set_reaped-Aged : (r : RunRow) → Aged r (set_reaped r)
unfolding set_reaped
set_reaped-Aged r = record {
  id = refl;
  job_id = refl;
  created_time = refl;
  run_timeout = refl;
  host_preference = refl;
  begun = λ _ e. cc e;
  started = λ h. h;
  complete = λ h. h;
}

Ends-begun : (state : RunState) (result : JobResult) → Ends state result → run_state_code state ≢ 0
unfolding run_state_code
Ends-begun state result (inl (e, f)) = rw e (λ h. cc h)
Ends-begun state result (inr (e, f)) = rw e (λ h. cc h)

set_completed-Aged :
    (now : ℕ) (state : RunState) (result : JobResult) (text : String) (r : RunRow)
    → Ends state result
    → Aged r (set_completed now state result text r)
unfolding set_completed
set_completed-Aged now state result text r h = record {
  id = refl;
  job_id = refl;
  created_time = refl;
  run_timeout = refl;
  host_preference = refl;
  begun = λ _. Ends-begun state result h;
  started = λ h. h;
  complete = λ _ e. cc e;
}

-- The row under an id, after a move.
update-Grows :
    (i id : ℕ) (f : RunRow → RunRow) (t : Table RunRow) (r : RunRow)
    → ((q : RunRow) → Aged q (f q))
    → by_id (λ (q : RunRow). q.id) id t.rows ≡ some r
    → (s : RunRow) × (by_id (λ (q : RunRow). q.id) id (update_where (is_run i) f t).rows ≡ some s)
      × Aged r s
update-Grows i id f t r older e = elim (Bool-cases (id == i)) [
  | inl y ↦ (
    f r,
    by_id-update (λ (q : RunRow). q.id) i id f t.rows (λ q. (older q).id) e ∙ rw y refl,
    older r,
  )
  | inr n ↦ (
    r,
    by_id-update (λ (q : RunRow). q.id) i id f t.rows (λ q. (older q).id) e ∙ rw n refl,
    Aged-refl r,
  )
]

Move-Aged :
    {t u : Table RunRow} (id : ℕ) (r : RunRow)
    → Move t u
    → by_id (λ (q : RunRow). q.id) id t.rows ≡ some r
    → (s : RunRow) × (by_id (λ (q : RunRow). q.id) id u.rows ≡ some s) × Aged r s
Move-Aged id r (queued {t} now job_id host) e = (
  r,
  by_id-append (λ (q : RunRow). q.id) id t.rows (fresh_run now job_id host (suc t.seq)) e,
  Aged-refl r,
)
Move-Aged id r (started {t} i now host_id path token) e =
    update-Grows i id (set_started now host_id path token) t r
      (set_started-Aged now host_id path token) e
Move-Aged id r (completed {t} i now info) e =
    update-Grows i id _ t r
      (λ q.
        set_completed-Aged now (verdict info).1 (result_of (verdict info).0)
          (text_of (verdict info).0) q (verdict-Ends info))
      e
Move-Aged id r (reaped {t} i) e = update-Grows i id set_reaped t r set_reaped-Aged e

Moves-Aged :
    {t u : Table RunRow} (id : ℕ) (r : RunRow)
    → Moves t u
    → by_id (λ (q : RunRow). q.id) id t.rows ≡ some r
    → (s : RunRow) × (by_id (λ (q : RunRow). q.id) id u.rows ≡ some s) × Aged r s
Moves-Aged id r unmoved e = (r, e, Aged-refl r)
Moves-Aged id r (m then ms) e =
    let (s, f, a) = Move-Aged id r m e in
    let (q, g, b) = Moves-Aged id s ms f in (q, g, Aged-trans a b)

-- Whatever happens in the service, a run stays in the table as the same run of the same job, and no
-- younger: once it has left the queue it is not pending again, and what has a start or an end keeps
-- one. This is so after any steps of any tasks, however they come between each other.
pub Interleaving-Aged :
    {db : Db} {tasks : List Task} {later : Db} {now : List Task} (id : ℕ) (r : RunRow)
    → Interleaving db tasks later now
    → find_run id db ≡ some r
    → (s : RunRow) × (find_run id later ≡ some s) × Aged r s
Interleaving-Aged id r i found = Moves-Aged id r (Interleaving-Moves i) found
