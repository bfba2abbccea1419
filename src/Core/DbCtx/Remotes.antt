-- ===== src/Core/DbCtx/Remotes.antt =====
-- The methods of ci-lib-core/src/dbctx.rs on repos and remotes.
use Prim.Native.String.{◌++◌ as append}
use build_o_tron.Base.{
  ℕ, String, ◌&&◌, Option, none, some, List, Outcome, ok, err, panic, Action, any, first?, select,
  ◌==◌, ◌=?◌, if◌then◌else◌,
}
use mathlib.Core.Option
use build_o_tron.Core.Sql.{Repo, Remote}
use build_o_tron.Core.Table.{insert, next_id, by_id}
use build_o_tron.Core.Db.{Db}
use build_o_tron.Core.DbCtx.Lock.{DbCtx, locked}

-- `repos.repo_name` has a unique index; the violation is an `Err`, in SQLite's words.
unfoldable pub new_repo : String → Action DbCtx ℕ
new_repo name = locked λ db.
    if any (λ (r : Repo). r.name =? name) db.repos.rows
    then (err "UNIQUE constraint failed: repos.repo_name", db)
    else (
      ok (next_id db.repos),
      record db {
        repos =
            insert (λ i. record { id = i; name = name; default_run_preference = none }) db.repos;
      },
    )

abbrev pub find_repo : ℕ → Db → Option Repo
find_repo id db = by_id (λ (r : Repo). r.id) id db.repos.rows

-- The queries for one column of a repo, outside this file, each with `.expect("can query")` while the
-- lock is held: a repo that is missing panics, and poisons the lock.
abbrev pub queried : Option Repo → Outcome Repo
queried none = panic "can query"
queried (some r) = ok r

abbrev pub queried_repo : ℕ → Action DbCtx Repo
queried_repo id = locked λ db. (queried (find_repo id db), db)

unfoldable pub repo_by_id : ℕ → Action DbCtx (Option Repo)
repo_by_id id = locked λ db. (ok (find_repo id db), db)

unfoldable pub repo_id_by_name : String → Action DbCtx (Option ℕ)
repo_id_by_name name = locked λ db.
    (ok (Option.map (λ (r : Repo). r.id) (first? (λ (r : Repo). r.name =? name) db.repos.rows)), db)

unfoldable pub get_repos : Action DbCtx (List Repo)
get_repos = locked λ db. (ok db.repos.rows, db)

abbrev pub find_remote : ℕ → Db → Option Remote
find_remote id db = by_id (λ (r : Remote). r.id) id db.remotes.rows

unfoldable pub remote_by_id : ℕ → Action DbCtx (Option Remote)
remote_by_id id = locked λ db. (ok (find_remote id db), db)

unfoldable pub remote_by_path_and_api : String → String → Action DbCtx (Option Remote)
remote_by_path_and_api api path = locked λ db.
    (ok (first? (λ (r : Remote). r.remote_api =? api && r.remote_path =? path) db.remotes.rows), db)

unfoldable pub repo_id_by_remote : ℕ → Action DbCtx (Option ℕ)
repo_id_by_remote remote_id =
    locked λ db. (ok (Option.map (λ (r : Remote). r.repo_id) (find_remote remote_id db)), db)

-- `REMOTES_FOR_REPO`
unfoldable pub remotes_by_repo : ℕ → Action DbCtx (List Remote)
remotes_by_repo repo_id =
    locked λ db. (ok (select (λ (r : Remote). r.repo_id == repo_id) db.remotes.rows), db)

abbrev pub github_url : String → String
github_url remote = append "https://www.github.com/" remote

-- The `match remote_kind` of `new_remote`: path, api, url and git url, before the row has its id.
-- A kind that is not listed panics, before the lock is taken.
unfoldable pub remote_for : ℕ → String → String → String → Option (ℕ → Remote)
remote_for repo_id remote kind config_path =
    if kind =? "github"
    then some (λ i. record {
      id = i;
      repo_id = repo_id;
      remote_path = remote;
      remote_api = kind;
      remote_url = github_url remote;
      remote_git_url = append (github_url remote) ".git";
      notifier_config_path = config_path;
    })
    else if kind =? "github-email"
    then some (λ i. record {
      id = i;
      repo_id = repo_id;
      remote_path = remote;
      remote_api = "email";
      remote_url = github_url remote;
      remote_git_url = append (append "http://www.github.com/" remote) ".git";
      notifier_config_path = config_path;
    })
    else none

abbrev pub add_remote : (ℕ → Remote) → Action Db ℕ
add_remote make db = (ok (next_id db.remotes), record db { remotes = insert make db.remotes })

abbrev pub insert_remote : String → Option (ℕ → Remote) → Action DbCtx ℕ
insert_remote kind none ctx = (panic (append "unsupported remote kind: " kind), ctx)
insert_remote kind (some make) ctx = locked (add_remote make) ctx

unfoldable pub new_remote : ℕ → String → String → String → Action DbCtx ℕ
unfolding remote_for
new_remote repo_id remote kind config_path =
    insert_remote kind (remote_for repo_id remote kind config_path)
