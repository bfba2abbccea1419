-- ===== src/Core/DbCtx/Commits.antt =====
-- The methods of ci-lib-core/src/dbctx.rs on commits and their names.
pub mod NiceName
use build_o_tron.Base.{
  ℕ, String, ◌≡◌, Bool, true, false, Option, none, some, List, [], ◌∷◌, Outcome, ok, err, panic,
  Action, any, first?, select, map, ◌==◌, ◌=?◌, if◌then◌else◌, expected,
}
use mathlib.Core.Option
use build_o_tron.Core.Sql.{CommitName, NameState, name_state_of, is_stale}
use build_o_tron.Core.Table.{Table, insert, next_id, by_id}
use build_o_tron.Core.Db.{Db, CommitRow, CommitNameRow}
use build_o_tron.Core.DbCtx.Lock.{DbCtx, locked}

-- `commits.sha` is UNIQUE, and `.expect("can insert")` panics on a violation.
unfoldable pub add_commit : String → Action Db ℕ
add_commit sha db =
    if any (λ (c : CommitRow). c.sha =? sha) db.commits.rows then (panic "can insert", db) else (
      ok (next_id db.commits),
      record db { commits = insert (λ i. record { id = i; sha = sha }) db.commits },
    )

-- `new_commit`
unfoldable pub new_commit : String → Action DbCtx ℕ
unfolding add_commit
new_commit sha = locked (add_commit sha)

-- `select sha from commits where id=?1`; a missing row is an error here, for lack of `.optional()`.
unfoldable pub commit_sha : ℕ → Action DbCtx String
commit_sha commit_id = locked λ db.
    elim (by_id (λ (c : CommitRow). c.id) commit_id db.commits.rows) [
      | none ↦ (err "Query returned no rows", db)
      | some c ↦ (ok c.sha, db)
    ]

-- `COMMIT_TO_ID`: `select id from commits where sha=?1;`
abbrev pub commit_to_id : String → Db → Option ℕ
commit_to_id sha db =
    Option.map (λ (c : CommitRow). c.id) (first? (λ (c : CommitRow). c.sha =? sha) db.commits.rows)

-- `job_for_commit` runs the query of `COMMIT_TO_ID`: what it returns is the id of a commit.
unfoldable pub job_for_commit : String → Action DbCtx (Option ℕ)
job_for_commit sha = locked λ db. (ok (commit_to_id sha db), db)

-- `update_commit_name`: the new name is `Fresh`, and no other row is touched.
unfoldable pub update_commit_name : ℕ → String → Action DbCtx (Unit {0})
update_commit_name commit_id name = locked λ db. (
  ok tt,
  record db {
    commit_names =
        insert (λ i. record { id = i; commit_id = commit_id; name = name; name_state = 0 })
          db.commit_names;
  },
)

-- The `while let` of `nice_name_for_commit`: a row replaces the best name while that is stale.
-- `name_state.try_into().unwrap()` is reached only then.
unfoldable pub best_name : Option CommitName → List CommitNameRow → Outcome (Option CommitName)
best_name best [] = ok best
best_name none (r ∷ rows) = elim (name_state_of r.name_state) [
  | ok s ↦ best_name (some (record { name = r.name; state = s })) rows
  | err e ↦ panic e
  | panic e ↦ panic e
]
best_name (some b) (r ∷ rows) =
    let keep = best_name (some b) rows in
    let replace : Outcome (Option CommitName) = elim (name_state_of r.name_state) [
      | ok s ↦ best_name (some (record { name = r.name; state = s })) rows
      | err e ↦ panic e
      | panic e ↦ panic e
    ] in
    if is_stale b then replace else keep

-- `NAMES_FOR_COMMIT`: `… from commit_names where commit_id=?1 order by id asc;`
abbrev pub names_for_commit : ℕ → Db → List CommitNameRow
names_for_commit commit_id db =
    select (λ (r : CommitNameRow). r.commit_id == commit_id) db.commit_names.rows

unfoldable pub nice_name_for_commit : ℕ → Action DbCtx (Option CommitName)
unfolding best_name
nice_name_for_commit commit_id = locked λ db. (best_name none (names_for_commit commit_id db), db)
