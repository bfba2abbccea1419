-- ===== src/Lifecycle/Methods/Growth.antt =====
-- What each method of `Method` (ci-lib-core/src/dbctx.rs, ci-driver/src/main.rs) leaves as it is: the rows
-- of jobs, commits, their names, repos, remotes and hosts.
use build_o_tron.Base.{
  ◌≡◌, refl, ◌∙◌, ap, sym, Bool, some, List, [], ◌∷◌, ◌++◌, append_nil, append_assoc, Action, any,
  first?, Bool-cases, Option-cases, inl, inr, ◌=?◌,
}
use build_o_tron.Core.Sql.{Repo}
use build_o_tron.Core.Table.{by_id}
use build_o_tron.Core.Db.{Db, CommitRow}
use build_o_tron.Core.DbCtx.Lock.{locked}
use build_o_tron.Core.DbCtx.Commits.{new_commit, add_commit, commit_sha, update_commit_name}
use build_o_tron.Core.DbCtx.Jobs.{add_job}
use build_o_tron.Core.DbCtx.Runs.{new_run, add_run, reap_task}
use build_o_tron.Core.DbCtx.Remotes.{new_repo, new_remote, remote_for, add_remote}
use build_o_tron.Core.DbCtx.Hosts.{
  id_for_host, find_or_add_host, insert_or_ignore_host, same_unique,
}
use build_o_tron.Core.DbCtx.Artifacts.{insert_metric, is_metric, add_artifact, finalize_artifact}
use build_o_tron.Driver.Session.{record_start, record_result}
use build_o_tron.Lifecycle.Methods.{
  Method, query, sha_of_commit, queue_run, start_run, finish_run, reap_run, make_commit, make_job,
  name_commit, put_metric, make_repo, make_remote, host_id, make_artifact, end_artifact, run_method,
  Respects, locked-Respects,
}

-- Rows that are there stay as they are and in their order; others may follow them.
abbrev pub Extends : {R : Type 0} → List R → List R → Type 0
Extends {R} rows later = (more : List R) × (later ≡ rows ++ more)

unchanged : {R : Type 0} (rows : List R) → Extends rows rows
unchanged rows = ([], sym (append_nil rows))

one_more : {R : Type 0} (rows : List R) (r : R) → Extends rows (rows ++ (r ∷ []))
one_more rows r = (r ∷ [], refl)

Extends-trans : {R : Type 0} (a b c : List R) → Extends a b → Extends b c → Extends a c
Extends-trans a b c (m, e) (n, f) = (m ++ n, f ∙ (ap (λ l. l ++ n) e ∙ append_assoc a m n))

first?-append :
    {R : Type 0} (p : R → Bool) (r : R) (rows more : List R)
    → first? p rows ≡ some r
    → first? p (rows ++ more) ≡ some r
first?-append p r [] more h = cc h
first?-append p r (q ∷ rows) more h = elim (Bool-cases (p q)) [
  | inl y ↦ rw y (rw y at h)
  | inr n ↦ rw n (first?-append p r rows more (rw n at h))
]

-- What a search from the top found is found again.
pub Extends-first? :
    {R : Type 0} (p : R → Bool) (r : R) (rows later : List R)
    → Extends rows later
    → first? p rows ≡ some r
    → first? p later ≡ some r
Extends-first? p r rows later (more, e) h = rw e (first?-append p r rows more h)

-- Jobs, commits, their names, repos, remotes and hosts.
abbrev pub Grows : Db → Db → Type 0
Grows db later =
    Extends db.jobs.rows later.jobs.rows
    × Extends db.commits.rows later.commits.rows
    × Extends db.commit_names.rows later.commit_names.rows
    × Extends db.repos.rows later.repos.rows
    × Extends db.remotes.rows later.remotes.rows
    × Extends db.hosts.rows later.hosts.rows

pub Grows-same : (db : Db) → Grows db db
Grows-same db = (unchanged _, unchanged _, unchanged _, unchanged _, unchanged _, unchanged _)

pub Grows-trans : (a b c : Db) → Grows a b → Grows b c → Grows a c
Grows-trans a b c (j, k, n, p, q, h) (j', k', n', p', q', h') = (
  Extends-trans _ _ _ j j',
  Extends-trans _ _ _ k k',
  Extends-trans _ _ _ n n',
  Extends-trans _ _ _ p p',
  Extends-trans _ _ _ q q',
  Extends-trans _ _ _ h h',
)

locked-Grows :
    {A : Type 0} (m : Action Db A) → ((db : Db) → Grows db (m db).1) → Respects Grows (locked m)
locked-Grows m h = locked-Respects Grows m Grows-same h

pub run_method-Grows : {B : Type 0} (m : Method B) → Respects Grows (run_method m)
unfolding run_method add_run add_commit find_or_add_host insert_or_ignore_host commit_sha new_run
    record_start record_result reap_task new_commit update_commit_name insert_metric new_repo
    new_remote id_for_host add_artifact finalize_artifact
run_method-Grows (query found) = locked-Grows (λ db. (found db, db)) Grows-same
run_method-Grows (sha_of_commit id) = locked-Grows _ λ db.
    elim (Option-cases (by_id (λ (c : CommitRow). c.id) id db.commits.rows)) [
      | inl n ↦ rw n (Grows-same db)
      | inr (c, e) ↦ rw e (Grows-same db)
    ]
run_method-Grows (queue_run now job_id host) = locked-Grows (add_run now job_id host) Grows-same
run_method-Grows (start_run now id host path token) = locked-Grows _ Grows-same
run_method-Grows (finish_run now id info) = locked-Grows _ Grows-same
run_method-Grows (reap_run id) = locked-Grows _ Grows-same
run_method-Grows (make_commit sha) = locked-Grows _ λ db.
    let (j, c, n, p, q, h) = Grows-same db in
    elim (Bool-cases (any (λ (r : CommitRow). r.sha =? sha) db.commits.rows)) [
      | inl y ↦ rw y (Grows-same db)
      | inr e ↦ rw e (j, one_more db.commits.rows _, n, p, q, h)
    ]
run_method-Grows (make_job now remote_id commit_id pusher pref) =
    locked-Grows (add_job now remote_id commit_id pusher pref)
      λ db. let (j, c, n, p, q, h) = Grows-same db in (one_more db.jobs.rows _, c, n, p, q, h)
run_method-Grows (name_commit id name) =
    locked-Grows _ λ db.
      let (j, c, n, p, q, h) = Grows-same db in (j, c, one_more db.commit_names.rows _, p, q, h)
run_method-Grows (put_metric run name value) = locked-Grows _ λ db.
    elim (Bool-cases (any (is_metric run name) db.metrics.rows)) [
      | inl y ↦ rw y (Grows-same db)
      | inr n ↦ rw n (Grows-same db)
    ]
run_method-Grows (make_repo name) = locked-Grows _ λ db.
    let (j, c, n, p, q, h) = Grows-same db in
    elim (Bool-cases (any (λ (r : Repo). r.name =? name) db.repos.rows)) [
      | inl y ↦ rw y (Grows-same db)
      | inr e ↦ rw e (j, c, n, one_more db.repos.rows _, q, h)
    ]
run_method-Grows (make_remote repo_id remote kind config) =
    elim (Option-cases (remote_for repo_id remote kind config)) [
      | inl n ↦ rw n (record { made = λ ctx. Grows-same ctx.db })
      | inr (make, e) ↦ rw e (
          locked-Grows (add_remote make) λ db.
            let (j, c, n, p, q, h) = Grows-same db in (j, c, n, p, one_more db.remotes.rows _, h))
    ]
run_method-Grows (host_id host) = locked-Grows _ λ db.
    let (j, c, n, p, q, h) = Grows-same db in
    elim (Bool-cases (any (same_unique host) db.hosts.rows)) [
      | inl y ↦ rw y (Grows-same db)
      | inr e ↦ rw e (j, c, n, p, q, one_more db.hosts.rows _)
    ]
run_method-Grows (make_artifact now run name desc) = locked-Grows _ Grows-same
run_method-Grows (end_artifact now id) = locked-Grows _ Grows-same
