-- ===== src/Lifecycle/Reaped.antt =====
-- Which runs a turn of `old_task_reaper` of ci-driver/src/main.rs marks as lost.
use build_o_tron.Base.{
  ℕ, ◌≤◌, ◌<◌, ◌+◌, ◌-◌, ◌≡◌, refl, ◌∙◌, ap, Bool, true, false, some, List, [], ◌∷◌, All, arith,
  inl, inr, Bool-cases, ok, select, ltb, ◌==◌, ◌||◌, ◌&&◌, not, ==_iff, if◌then◌else◌, sym,
}
use build_o_tron.Core.Sql.{Run}
use build_o_tron.Core.Table.{by_id, by_id-update, Ascending}
use build_o_tron.Core.Db.{Db, RunRow}
use build_o_tron.Core.DbCtx.Lock.{DbCtx, new}
use build_o_tron.Core.DbCtx.Runs.{rows2runs, get_active_runs, reap_task, set_reaped, update_run}
use build_o_tron.Driver.Reaper.{reap_all, is_stale, old_task_reaper}
use build_o_tron.Driver.Reaper.Removal.{remove_active}
use build_o_tron.Driver.Reaper.Spares.{
  count, is_active, row_of, reap_all-spares, count-remove_active,
}
use build_o_tron.Driver.Reaper.Stale.{
  row_stale, count_rows, Stale, rows2runs-count, rows2runs-Stale, All-remove_active,
  count-select-Stale,
}
use build_o_tron.Lifecycle.Reachable.{Reach-IsSound, rows2runs-ok, All-select}
use build_o_tron.Lifecycle.System.{Reach}

abbrev pub Only : ℕ → RunRow → RunRow → Type 0
Only id row r = r.id ≡ id → r ≡ row

-- Rows above an id have none of it.
above :
    (id : ℕ) (row : RunRow) (rows : List RunRow)
    → All (λ (r : RunRow). id < r.id) rows
    → All (Only id row) rows × (count_rows id rows ≡ 0)
above id row [] h = (tt, refl)
above id row (r ∷ rows) h =
    let (only, none_left) = above id row rows h.1 in
    let n : (r.id == id) ≡ false = ground (arith, h.0) in
    (((λ q. ground (arith, h.0, q)), only), rw n (omega (arith, none_left)))

-- In rows with ids of their own, the row found under an id is the only one of it.
pub by_id-Only :
    (id : ℕ) (row : RunRow) (rows : List RunRow)
    → Ascending (λ (r : RunRow). r.id) rows
    → by_id (λ (r : RunRow). r.id) id rows ≡ some row
    → All (Only id row) rows × (count_rows id rows ≡ 1)
by_id-Only id row [] a h = cc h
by_id-Only id row (r ∷ rows) a h = elim (Bool-cases (r.id == id)) [
  | inl y ↦
      let k : some r ≡ some row = rw y at h in
      let e : r.id ≡ id = (==_iff r.id id).0 y in
      let (only, none_left) = above id row rows (rw e at a.0) in
      (((λ q. cc k), only), rw y (ap (λ n. 1 + n) none_left))
  | inr n ↦
      let (only, one) = by_id-Only id row rows a.1 (rw n at h) in
      (((λ q. ground (arith, q, n)), only), rw n (omega (arith, one)))
]

count-select_rows :
    (id : ℕ) (row : RunRow) (p : RunRow → Bool) (rows : List RunRow)
    → All (Only id row) rows
    → p row ≡ true
    → count_rows id (select p rows) ≡ count_rows id rows
count-select_rows id row p [] h y = refl
count-select_rows id row p (r ∷ rows) h y =
    let later = count-select_rows id row p rows h.1 y in
    elim (Bool-cases (p r)) [
      | inl t ↦ rw t (ap (λ n. (if r.id == id then 1 else 0) + n) later)
      | inr f ↦
          let n : (r.id == id) ≡ false = elim (Bool-cases (r.id == id)) [
            | inl t ↦
                let k : r ≡ row = h.0 ((==_iff r.id id).0 t) in
                let z : true ≡ false = sym y ∙ (ap p (sym k) ∙ f) in cc z
            | inr k ↦ k
          ] in
          rw f (rw n (omega (arith, later)))
    ]

count-select_le :
    (id : ℕ) (p : RunRow → Bool) (rows : List RunRow)
    → count_rows id (select p rows) ≤ count_rows id rows
count-select_le id p [] = omega arith
count-select_le id p (r ∷ rows) = elim (Bool-cases (p r)) [
  | inl y ↦ rw y (omega (arith, count-select_le id p rows))
  | inr n ↦ rw n (ground (arith, count-select_le id p rows))
]

select-Only :
    (id threshold : ℕ) (row : RunRow) (p : RunRow → Bool) (rows : List RunRow)
    → All (Only id row) rows
    → All
        (λ (r : RunRow). r.id ≡ id → row_stale threshold r ≡ row_stale threshold row)
        (select p rows)
select-Only id threshold row p [] h = tt
select-Only id threshold row p (r ∷ rows) h = elim (Bool-cases (p r)) [
  | inl y ↦ rw y ((λ q. ap (row_stale threshold) (h.0 q)), select-Only id threshold row p rows h.1)
  | inr n ↦ rw n (select-Only id threshold row p rows h.1)
]

reap_all-once :
    (id : ℕ) (row : RunRow) (rs : List Run) (ctx : DbCtx)
    → ctx.poisoned ≡ false
    → row_of id ctx.db ≡ some row
    → count id rs ≡ 1
    → row_of id (reap_all rs ctx).1.db ≡ some (set_reaped row)
unfolding reap_all reap_task set_reaped
reap_all-once id row [] ctx p h one = ground (arith, one)
reap_all-once id row (r ∷ rs) ctx p h one =
    let after =
      by_id-update (λ (q : RunRow). q.id) r.id id set_reaped ctx.db.runs.rows (λ q. refl) h in
    elim (Bool-cases (r.id == id)) [
      | inl y ↦
          let z : count id rs ≡ 0 = ground arith in
          rw p (
            reap_all-spares id rs
              (record { db = update_run r.id set_reaped ctx.db; poisoned = false }) refl z
            ∙ (after ∙ ground (arith, y)))
      | inr n ↦ rw p (
          reap_all-once id row rs
            (record { db = update_run r.id set_reaped ctx.db; poisoned = false }) refl
            (after ∙ ground (arith, n)) (ground arith))
    ]

row_stale-started :
    (threshold : ℕ) (row : RunRow) → row_stale threshold row ≡ true → (row.state == 1) ≡ true
row_stale-started threshold row h = elim (Bool-cases (row.state == 1)) [
  | inl y ↦ y
  | inr n ↦ let k : false ≡ true = rw n at h in cc k
]

-- How many of the runs left over are reaped: the one with the id, if it is stale and not active.
count-left :
    (id threshold : ℕ) (active : List ℕ) (row : RunRow) (rows : List RunRow) (runs : List Run)
    → Ascending (λ (r : RunRow). r.id) rows
    → by_id (λ (r : RunRow). r.id) id rows ≡ some row
    → rows2runs (select (λ (q : RunRow). q.state == 1 || q.state == 0) rows) ≡ ok runs
    → count id (select (is_stale threshold) (remove_active active runs))
      ≡ (if row_stale threshold row && not (is_active active id) then 1 else 0)
count-left id threshold active row rows runs a h e =
    let open_run = λ (q : RunRow). q.state == 1 || q.state == 0 in
    let (only, one) = by_id-Only id row rows a h in
    let same = rows2runs-count id (select open_run rows) runs e in
    let few = count-select_le id open_run rows in
    let left = count-remove_active id active runs (omega (arith, same, few, one)) in
    let reaped =
      count-select-Stale id threshold (row_stale threshold row) (remove_active active runs) (
        All-remove_active (Stale id threshold (row_stale threshold row)) active runs (
          rows2runs-Stale id threshold (row_stale threshold row) (select open_run rows) runs e
            (select-Only id threshold row open_run rows only))) in
    reaped ∙ elim (Bool-cases (row_stale threshold row)) [
      | inr n ↦ rw n refl
      | inl y ↦ rw y (
          left ∙ elim (Bool-cases (is_active active id)) [
            | inl t ↦ rw t refl
            | inr f ↦
                let started = row_stale-started threshold row y in
                rw f (same ∙ (count-select_rows id row open_run rows only (rw started refl) ∙ one))
          ])
    ]

-- In a database that the service can come to, a turn of the reaper at a clock past its first minute
-- marks the run of an id as lost if the run is started, not since the last minute, and no task of
-- the id is active; it leaves the row of any other run as it is.
pub old_task_reaper-reaped :
    {db : Db} (active : List ℕ) (id now : ℕ) (row : RunRow)
    → Reach db
    → 60000 ≤ now
    → row_of id db ≡ some row
    → row_of id (old_task_reaper active now (new db)).1.db
      ≡ some
          (if row_stale (now - 60000) row && not (is_active active id) then set_reaped row else row)
unfolding old_task_reaper get_active_runs
old_task_reaper-reaped {db} active id now row r late h =
    let (runs, e) =
      rows2runs-ok (select (λ (q : RunRow). q.state == 1 || q.state == 0) db.runs.rows)
        (All-select _ db.runs.rows (Reach-IsSound r).rows) in
    let n : ltb now 60000 ≡ false = ground arith in
    let left =
      count-left id (now - 60000) active row db.runs.rows runs (Reach-IsSound r).ids.ascending h
        e in
    let rest = select (is_stale (now - 60000)) (remove_active active runs) in
    let ctx : DbCtx = record { db = db; poisoned = false } in
    rw e (
      rw n (elim (Bool-cases (row_stale (now - 60000) row && not (is_active active id))) [
        | inl y ↦ rw y (reap_all-once id row rest ctx refl h (left ∙ rw y refl))
        | inr k ↦ rw k (reap_all-spares id rest ctx refl (left ∙ rw k refl) ∙ h)
      ]))
