-- ===== src/Lifecycle/Queue.antt =====
-- The queue of the runs that wait for a runner (`PENDING_RUNS`, ci-lib-core/src/sql.rs), in the service
-- as a whole.
use build_o_tron.Base.{
  ℕ, ◌≡◌, ◌≢◌, refl, ◌∙◌, true, false, Option, some, List, [], ◌∷◌, All, any, select, ◌==◌,
  Bool-cases, inl, inr, ==_iff, any-order_desc,
}
use build_o_tron.Core.Db.{Db, RunRow}
use build_o_tron.Core.DbCtx.Runs.{waits_for}
use build_o_tron.Core.DbCtx.Runs.Queue.{is_run, waits}
use build_o_tron.Driver.Session.Recorded.{find_run}
use build_o_tron.Lifecycle.Ages.{Interleaving-Aged}
use build_o_tron.Lifecycle.Invariant.{Moves-IsSound}
use build_o_tron.Lifecycle.Reachable.{Reach-IsSound}
use build_o_tron.Lifecycle.Reaped.{Only, by_id-Only}
use build_o_tron.Lifecycle.System.{Task, Interleaving, Interleaving-Moves, Reach}

-- Where the one row of an id does not wait, none of the id does.
none_waits :
    (host : Option ℕ) (id : ℕ) (row : RunRow) (rows : List RunRow)
    → waits_for host row ≡ false
    → All (Only id row) rows
    → any (is_run id) (select (waits_for host) rows) ≡ false
none_waits host id row [] w only = refl
none_waits host id row (r ∷ rows) w only =
    let later = none_waits host id row rows w only.1 in
    elim (Bool-cases (waits_for host r)) [
      | inr n ↦ rw n later
      | inl y ↦ elim (Bool-cases (r.id == id)) [
        | inr n ↦ rw y (rw n later)
        | inl t ↦
            let e : r ≡ row = only.0 ((==_iff r.id id).0 t) in
            let k : true ≡ false = cc (y, w, e) in cc k
      ]
    ]

begun_waits_not : (host : Option ℕ) (row : RunRow) → row.state ≢ 0 → waits_for host row ≡ false
begun_waits_not host row s = elim (Bool-cases (row.state == 0)) [
  | inl y ↦ absurd (s ((==_iff row.state 0).0 y))
  | inr n ↦ rw n refl
]

-- A run that is not pending, in a database that the service can come to, waits for no runner on any
-- host in any database after that, whatever tasks do and in whatever order they take the lock.
pub Interleaving-waits :
    {db : Db} {tasks : List Task} {later : Db} {now : List Task} (host : Option ℕ) (id : ℕ)
    (row : RunRow)
    → Reach db
    → Interleaving db tasks later now
    → find_run id db ≡ some row
    → row.state ≢ 0
    → waits host id later ≡ false
Interleaving-waits {later} host id row r i found begun =
    let (old, f, aged) = Interleaving-Aged id row i found in
    let sound = Moves-IsSound (Interleaving-Moves i) (Reach-IsSound r) in
    let (only, _) = by_id-Only id old later.runs.rows sound.ids.ascending f in
    any-order_desc (is_run id) (λ (q : RunRow). some q.created_time)
      (select (waits_for host) later.runs.rows)
    ∙ none_waits host id old later.runs.rows (begun_waits_not host old (aged.begun begun)) only
