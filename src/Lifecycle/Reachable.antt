-- ===== src/Lifecycle/Reachable.antt =====
-- What holds in each database that the service can come to, and what the methods of
-- ci-lib-core/src/dbctx.rs and the reaper of ci-driver/src/main.rs can rely on there.
use mathlib.Core.Option
use build_o_tron.Base.{
  ℕ, suc, zero, ◌≤◌, ◌+◌, ◌-◌, ◌≡◌, ◌≢◌, refl, String, Bool, true, false, Option, none, some, List,
  [], ◌∷◌, All, arith, inl, inr, Bool-cases, ok, select, first?, ltb, ◌==◌, ◌||◌, Option-cases,
  ◌=?◌,
}
use build_o_tron.Core.Sql.{RunState, Run, TokenValidity, run_state_of}
use build_o_tron.Core.Db.{Db, RunRow}
use build_o_tron.Core.DbCtx.Lock.{DbCtx, new}
use build_o_tron.Core.DbCtx.Runs.{
  run_of, row2run, rows2runs, get_active_runs, reap_task, run_for_token, has_token, validity,
  token_expiry_ms,
}
use build_o_tron.Driver.Reaper.{reap_all, is_stale, old_task_reaper}
use build_o_tron.Driver.Reaper.Removal.{remove_active}
use build_o_tron.Lifecycle.Invariant.{
  IsConsistent, IsSound, Activation, never, once, Moves-IsSound, empty-IsSound,
}
use build_o_tron.Lifecycle.System.{Reach, Reach-Moves, Interleaving-Respects}
use build_o_tron.Lifecycle.Schema.{IsValid, empty_db-IsValid}
use build_o_tron.Lifecycle.Methods.Schema.{KeepsValid, run_method-Valid}

-- In every database that the service can come to, by tasks that take the lock in any order, the rows of
-- the runs have ids of their own, and each says what its state says: a pending run is as it was
-- queued, a started one has a start, a finished one has passed, one in error has failed, and one
-- that was reaped is marked as lost. A run has a start, a host, a directory and a token, or none of
-- these.
pub Reach-IsSound : {db : Db} → Reach db → IsSound db.runs
Reach-IsSound r = Moves-IsSound (Reach-Moves r) empty-IsSound

-- In every database that the service can come to, each id of a table is of one row, and no sha, no
-- name of a repo, no metric of a run and no host, by the columns of its constraint, is there twice.
pub Reach-IsValid : {db : Db} → Reach db → IsValid db
Reach-IsValid (tasks, i) =
    Interleaving-Respects KeepsValid (λ db v. v) (λ a b c h k v. k (h v))
      (λ _ m. run_method-Valid m) i empty_db-IsValid

known-state : (n : ℕ) → n ≤ 4 → (s : RunState) × (run_state_of n ≡ ok s)
unfolding run_state_of
known-state zero h = (RunState.pending, refl)
known-state (suc zero) h = (RunState.started, refl)
known-state (suc (suc zero)) h = (RunState.finished, refl)
known-state (suc (suc (suc zero))) h = (RunState.error, refl)
known-state (suc (suc (suc (suc zero)))) h = (RunState.invalid, refl)
known-state (suc (suc (suc (suc (suc n))))) h = ground arith

row2run-ok : (r : RunRow) → IsConsistent r → (run : Run) × (row2run r ≡ ok run)
unfolding row2run
row2run-ok r c = let (s, f) = known-state r.state c.known in (run_of r s, rw (f, row2run) refl)

pub rows2runs-ok :
    (rows : List RunRow) → All IsConsistent rows → (runs : List Run) × (rows2runs rows ≡ ok runs)
unfolding rows2runs
rows2runs-ok [] h = ([], refl)
rows2runs-ok (r ∷ rows) h =
    let (runs, e) = rows2runs-ok rows h.1 in
    let (run, f) = row2run-ok r h.0 in (run ∷ runs, rw (f, e, rows2runs) refl)

pub All-select :
    (p : RunRow → Bool) (rows : List RunRow)
    → All IsConsistent rows
    → All IsConsistent (select p rows)
All-select p [] h = tt
All-select p (r ∷ rows) h = elim (Bool-cases (p r)) [
  | inl y ↦ rw y (h.0, All-select p rows h.1)
  | inr n ↦ rw n (All-select p rows h.1)
]

-- Reaping ends well over an unpoisoned lock.
reap_all-ok : (runs : List Run) (ctx : DbCtx) → ctx.poisoned ≡ false → (reap_all runs ctx).0 ≡ ok tt
unfolding reap_all reap_task
reap_all-ok [] ctx p = refl
reap_all-ok (r ∷ rs) ctx p = rw p (reap_all-ok rs _ refl)

-- In a database that the service can come to, a turn of the reaper ends well, whatever runs there
-- are: its process has an unpoisoned lock, and the clock is past its first minute.
pub old_task_reaper-ends :
    {db : Db} (active : List ℕ) (now : ℕ)
    → Reach db
    → 60000 ≤ now
    → (old_task_reaper active now (new db)).0 ≡ ok tt
unfolding old_task_reaper get_active_runs
old_task_reaper-ends {db} active now r late =
    let (runs, e) =
      rows2runs-ok (select (λ (q : RunRow). q.state == 1 || q.state == 0) db.runs.rows)
        (All-select _ db.runs.rows (Reach-IsSound r).rows) in
    let n : ltb now 60000 ≡ false = ground arith in
    rw e (rw n (reap_all-ok (select (is_stale (now - 60000)) (remove_active active runs)) _ refl))

-- A row that has a token has a directory, and the token is not invalid.
token_parts :
    {start host : Option ℕ} {dir owned : Option String} (now : ℕ) (timeout : Option ℕ)
    (token : String)
    → Activation start host dir owned
    → (elim owned [ none ↦ false | some t ↦ t =? token ]) ≡ true
    → (dir ≢ none) × (validity now start timeout ≢ TokenValidity.invalid)
unfolding validity
token_parts now timeout token never h = cc h
token_parts now timeout token (once start host path t) h = (
  (λ e. cc e),
  elim (Bool-cases (ltb (start + Option.get_or timeout token_expiry_ms) now)) [
    | inl y ↦ rw y (λ e. cc e)
    | inr n ↦ rw n (λ e. cc e)
  ],
)

token_row :
    (token : String) (rows : List RunRow) (r : RunRow)
    → All IsConsistent rows
    → first? (has_token token) rows ≡ some r
    → (has_token token r ≡ true) × IsConsistent r
token_row token [] r c e = cc e
token_row token (q ∷ rows) r c e = elim (Bool-cases (has_token token q)) [
  | inl y ↦ let k : some q ≡ some r = rw y at e in let z : q ≡ r = cc k in rw (← z) (y, c.0)
  | inr n ↦ token_row token rows r c.1 (rw n at e)
]

-- In a database that the service can come to, a build token names nothing, or a run that has a
-- directory and was started: the token is valid or expired, and never invalid.
pub run_for_token-known :
    {db : Db} (now : ℕ) (token : String) (run : ℕ) (path : Option String) (v : TokenValidity)
    → Reach db
    → (run_for_token now token (new db)).0 ≡ ok (some (run, path, v))
    → (path ≢ none) × (v ≢ TokenValidity.invalid)
unfolding run_for_token
run_for_token-known {db} now token run path v r h =
    elim (Option-cases (first? (has_token token) db.runs.rows)) [
      | inl n ↦ let k : ok none ≡ ok (some (run, path, v)) = rw n at h in cc k
      | inr (row, e) ↦
          let (y, c) = token_row token db.runs.rows row (Reach-IsSound r).rows e in
          let k : ok
                (some (row.id, row.artifacts_path, validity now row.started_time row.run_timeout))
              ≡ ok (some (run, path, v)) =
            rw e at h in
          let (p, w) = token_parts now row.run_timeout token c.activation y in
          ((λ z. p (cc (k, z))), (λ z. w (cc (k, z))))
    ]
