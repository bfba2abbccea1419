-- ===== src/Driver/Reaper/Spares.antt =====
-- The runs that `old_task_reaper` of ci-driver/src/main.rs takes out of the list or leaves alone,
-- counted by their id.
use build_o_tron.Base.{
  ℕ, suc, ◌+◌, ◌≤◌, ◌≡◌, refl, ◌∙◌, Bool, false, Option, none, some, List, [], ◌∷◌, ◌==◌, any,
  Bool-cases, inl, inr, if◌then◌else◌, arith, ==_iff, update,
}
use build_o_tron.Core.Sql.{Run}
use build_o_tron.Core.Table.{by_id}
use build_o_tron.Core.Db.{Db, RunRow}
use build_o_tron.Core.DbCtx.Lock.{DbCtx}
use build_o_tron.Core.DbCtx.Runs.{reap_task, set_reaped, update_run}
use build_o_tron.Driver.Reaper.{reap_all}
use build_o_tron.Driver.Reaper.Removal.{
  in_rest, position, swap_remove, remove_active, remove_at, init, last_or,
}

abbrev is_id : ℕ → Run → Bool
is_id id r = r.id == id

-- How many of the runs have the id.
abbrev pub count : ℕ → List Run → ℕ
count id [] = 0
count id (r ∷ rs) = (if is_id id r then 1 else 0) + count id rs

abbrev pub is_active : List ℕ → ℕ → Bool
is_active active id = any (λ a. a == id) active

count-last_init :
    (id : ℕ) (y : Run) (ys : List Run) → count id (last_or y ys ∷ init (y ∷ ys)) ≡ count id (y ∷ ys)
count-last_init id y [] = refl
count-last_init id y (z ∷ ys) = omega (arith, count-last_init id z ys)

in_rest-none : (o : Option ℕ) → in_rest o ≡ none → o ≡ none
in_rest-none none h = refl
in_rest-none (some i) h = cc

in_rest-some : (o : Option ℕ) (i : ℕ) → in_rest o ≡ some i → (j : ℕ) × (o ≡ some j) × (i ≡ suc j)
in_rest-some none i h = cc
in_rest-some (some j) i h = (j, refl, cc h)

count-position-none : (id : ℕ) (runs : List Run) → position id runs ≡ none → count id runs ≡ 0
unfolding position
count-position-none id [] h = refl
count-position-none id (r ∷ rs) h = elim (Bool-cases (r.id == id)) [
  | inl y ↦ let k : some 0 ≡ none = rw y at h in cc k
  | inr n ↦
      let later : in_rest (position id rs) ≡ none = rw n at h in
      rw n (omega (arith, count-position-none id rs (in_rest-none (position id rs) later)))
]

count-swap_first :
    (id : ℕ) (r : Run) (rs : List Run) → count id (swap_remove (r ∷ rs) 0) ≡ count id rs
unfolding swap_remove
count-swap_first id r [] = refl
count-swap_first id r (y ∷ ys) = count-last_init id y ys

swap_remove-suc :
    (r : Run) (rs : List Run) (i : ℕ) → swap_remove (r ∷ rs) (suc i) ≡ r ∷ swap_remove rs i
unfolding swap_remove
swap_remove-suc r [] i = refl
swap_remove-suc r (y ∷ ys) i = refl

-- Taking out the run that was found takes away one of its id, and none of another.
count-swap_remove :
    (id a i : ℕ) (runs : List Run)
    → position a runs ≡ some i
    → (if a == id then 1 else 0) + count id (swap_remove runs i) ≡ count id runs
unfolding position
count-swap_remove id a i [] h = cc
count-swap_remove id a i (r ∷ rs) h = elim (Bool-cases (r.id == a)) [
  | inl y ↦
      let k : some 0 ≡ some i = rw y at h in
      let z : 0 ≡ i = cc k in
      let q : r.id ≡ a = (==_iff r.id a).0 y in
      rw (← z) (rw (count-swap_first id r rs) (rw (← q) refl))
  | inr n ↦
      let later : in_rest (position a rs) ≡ some i = rw n at h in
      let (j, e, z) = in_rest-some (position a rs) i later in
      rw z (rw (swap_remove-suc r rs j) (omega (arith, count-swap_remove id a j rs e)))
]

count-remove_one :
    (id a : ℕ) (runs : List Run) (found : Option ℕ)
    → position a runs ≡ found
    → count id runs ≤ 1
    → count id (remove_at found runs) ≡ (if a == id then 0 else count id runs)
count-remove_one id a runs none e h = elim (Bool-cases (a == id)) [
  | inl y ↦ let q : a ≡ id = (==_iff a id).0 y in rw y (count-position-none id runs (rw q at e))
  | inr n ↦ rw n refl
]
count-remove_one id a runs (some i) e h = ground (arith, count-swap_remove id a i runs e)

-- Where at most one run has an id, none is left of it if the id is active, and it is left if not.
pub count-remove_active :
    (id : ℕ) (active : List ℕ) (runs : List Run)
    → count id runs ≤ 1
    → count id (remove_active active runs) ≡ (if is_active active id then 0 else count id runs)
unfolding remove_active
count-remove_active id [] runs h = refl
count-remove_active id (a ∷ active) runs h =
    let one = count-remove_one id a runs (position a runs) refl h in
    ground (
      arith,
      one,
      count-remove_active id active (remove_at (position a runs) runs) (ground (arith, one)),
    )

abbrev pub row_of : ℕ → Db → Option RunRow
row_of id db = by_id (λ (r : RunRow). r.id) id db.runs.rows

update-other :
    (i id : ℕ) (rows : List RunRow)
    → (i == id) ≡ false
    → by_id (λ (r : RunRow). r.id) id (update (λ (r : RunRow). r.id == i) set_reaped rows)
      ≡ by_id (λ (r : RunRow). r.id) id rows
unfolding set_reaped
update-other i id [] h = refl
update-other i id (r ∷ rows) h = elim (Bool-cases (r.id == i)) [
  | inl y ↦ let n : (r.id == id) ≡ false = ground arith in rw y (rw n (update-other i id rows h))
  | inr n ↦ elim (Bool-cases (r.id == id)) [
    | inl e ↦ rw n (rw e refl)
    | inr e ↦ rw n (rw e (update-other i id rows h))
  ]
]

pub reap_all-spares :
    (id : ℕ) (rs : List Run) (ctx : DbCtx)
    → ctx.poisoned ≡ false
    → count id rs ≡ 0
    → row_of id (reap_all rs ctx).1.db ≡ row_of id ctx.db
unfolding reap_all reap_task
reap_all-spares id [] ctx p h = refl
reap_all-spares id (r ∷ rs) ctx p h =
    let n : (r.id == id) ≡ false = ground arith in
    let z : count id rs ≡ 0 = ground arith in
    rw p (
      reap_all-spares id rs (record { db = update_run r.id set_reaped ctx.db; poisoned = false })
        refl z
      ∙ update-other r.id id ctx.db.runs.rows n)
