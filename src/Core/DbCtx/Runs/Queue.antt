-- ===== src/Core/DbCtx/Runs/Queue.antt =====
-- Which runs wait for a runner (`PENDING_RUNS` in ci-lib-core/src/sql.rs), and how a run comes into
-- that queue.
use build_o_tron.Base.{
  ℕ, suc, ◌≡◌, refl, ◌∙◌, Bool, true, false, Option, none, some, List, [], ◌∷◌, ◌++◌, any, select,
  ◌==◌, Bool-cases, inl, inr, arith, any-order_desc, ==_refl,
}
use build_o_tron.Core.Sql.{run_state_code}
use build_o_tron.Core.Db.{Db, RunRow}
use build_o_tron.Core.DbCtx.Lock.{DbCtx}
use build_o_tron.Core.DbCtx.Runs.{waits_for, pending_rows, new_run, add_run, fresh_run}

abbrev pub is_run : ℕ → RunRow → Bool
is_run id r = r.id == id

-- Does the run wait, for a runner on this host?
abbrev pub waits : Option ℕ → ℕ → Db → Bool
waits host id db = any (is_run id) (pending_rows host db)

any-select_append :
    (id : ℕ) (host : Option ℕ) (rows : List RunRow) (new : RunRow)
    → waits_for host new ≡ true
    → is_run id new ≡ true
    → any (is_run id) (select (waits_for host) (rows ++ (new ∷ []))) ≡ true
any-select_append id host [] new w i = rw w (rw i refl)
any-select_append id host (r ∷ rows) new w i = elim (Bool-cases (waits_for host r)) [
  | inr n ↦ rw n (any-select_append id host rows new w i)
  | inl y ↦ rw y (elim (Bool-cases (r.id == id)) [
    | inl t ↦ rw t refl
    | inr f ↦ rw f (any-select_append id host rows new w i)
  ])
]

-- A run that is created without a preferred host, over an unpoisoned lock, waits for a runner on
-- every host; and one that is created for a host waits for a runner on that host.
pub waits-new_run :
    (now job_id : ℕ) (host : Option ℕ) (preferred : ℕ) (ctx : DbCtx)
    → ctx.poisoned ≡ false
    → (waits host (suc ctx.db.runs.seq) (new_run now job_id none ctx).1.db ≡ true)
      × (waits (some preferred) (suc ctx.db.runs.seq) (new_run now job_id (some preferred) ctx).1.db
          ≡ true)
unfolding new_run add_run run_state_code
waits-new_run now job_id host preferred ctx p = (
  rw p (
      any-order_desc (is_run (suc ctx.db.runs.seq)) (λ (r : RunRow). some r.created_time)
        (select (waits_for host)
          (ctx.db.runs.rows ++ (fresh_run now job_id none (suc ctx.db.runs.seq) ∷ [])))
      ∙ any-select_append (suc ctx.db.runs.seq) host ctx.db.runs.rows
          (fresh_run now job_id none (suc ctx.db.runs.seq)) (any_host host)
          (==_refl (suc ctx.db.runs.seq))),
  rw p (
      any-order_desc (is_run (suc ctx.db.runs.seq)) (λ (r : RunRow). some r.created_time)
        (select (waits_for (some preferred))
          (ctx.db.runs.rows ++ (fresh_run now job_id (some preferred) (suc ctx.db.runs.seq) ∷ [])))
      ∙ any-select_append (suc ctx.db.runs.seq) (some preferred) ctx.db.runs.rows
          (fresh_run now job_id (some preferred) (suc ctx.db.runs.seq))
          (rw (==_refl preferred) refl) (==_refl (suc ctx.db.runs.seq))),
)
  where
    any_host : (h : Option ℕ) → waits_for h (fresh_run now job_id none (suc ctx.db.runs.seq)) ≡ true
    any_host none = refl
    any_host (some a) = ground arith
