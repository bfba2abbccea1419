-- ===== src/Lifecycle/Methods/Schema.antt =====
-- What each method of `Method` (ci-lib-core/src/dbctx.rs, ci-driver/src/main.rs) does to the constraints
-- of the tables: it keeps them.
use build_o_tron.Base.{
  ℕ, suc, ◌≡◌, String, refl, Option, none, some, Action, any, Bool-cases, Option-cases, inl, inr,
  ◌=?◌, ◌==◌, if◌then◌else◌,
}
use build_o_tron.Core.Sql.{Repo, Remote, ArtifactRecord, MetricRecord, Job}
use build_o_tron.Core.Table.{insert, update_where, by_id, insert-IsKeyed, update_where-IsKeyed}
use build_o_tron.Core.Db.{Db, RunRow, CommitRow, CommitNameRow}
use build_o_tron.Core.DbCtx.Lock.{locked}
use build_o_tron.Core.DbCtx.Commits.{new_commit, add_commit, commit_sha, update_commit_name}
use build_o_tron.Core.DbCtx.Jobs.{add_job}
use build_o_tron.Core.DbCtx.Runs.{
  new_run, add_run, reap_task, update_run, fresh_run, set_started, set_completed, set_reaped,
}
use build_o_tron.Core.DbCtx.Runs.Queue.{is_run}
use build_o_tron.Core.DbCtx.Remotes.{new_repo, new_remote, remote_for, add_remote}
use build_o_tron.Core.DbCtx.Hosts.{
  id_for_host, find_or_add_host, insert_or_ignore_host, same_unique, host_row,
}
use build_o_tron.Core.DbCtx.Artifacts.{insert_metric, is_metric, add_artifact, finalize_artifact}
use build_o_tron.Native.Notifier.{text_of}
use build_o_tron.Driver.Session.{record_start, record_result, verdict, result_of}
use build_o_tron.Lifecycle.Schema.{
  IsValid, insert-keeps, IsUnique-update, same_sha, same_name, same_metric, same_columns,
}
use build_o_tron.Lifecycle.Methods.{
  Method, query, sha_of_commit, queue_run, start_run, finish_run, reap_run, make_commit, make_job,
  name_commit, put_metric, make_repo, make_remote, host_id, make_artifact, end_artifact, run_method,
  Respects, locked-Respects,
}

abbrev pub KeepsValid : Db → Db → Type 0
KeepsValid db later = IsValid db → IsValid later

abbrev job_row : ℕ → ℕ → ℕ → Option String → Option String → ℕ → Job
job_row now remote_id commit_id pusher pref i = record {
  id = i;
  remote_id = remote_id;
  commit_id = commit_id;
  created_time = now;
  source = pusher;
  run_preferences = pref;
}

abbrev name_row : ℕ → String → ℕ → CommitNameRow
name_row commit_id name i = record { id = i; commit_id = commit_id; name = name; name_state = 0 }

abbrev artifact_row : ℕ → ℕ → String → String → ℕ → ArtifactRecord
artifact_row now run name desc i = record {
  id = i;
  run_id = run;
  name = name;
  desc = desc;
  created_time = now;
  completed_time = none;
}

abbrev metric_row : ℕ → String → String → ℕ → MetricRecord
metric_row run name value i = record { id = i; run_id = run; name = name; value = value }

abbrev commit_row : String → ℕ → CommitRow
commit_row sha i = record { id = i; sha = sha }

abbrev repo_row : String → ℕ → Repo
repo_row name i = record { id = i; name = name; default_run_preference = none }

locked-Valid :
    {A : Type 0} (m : Action Db A)
    → ((db : Db) → KeepsValid db (m db).1)
    → Respects KeepsValid (locked m)
locked-Valid m h = locked-Respects KeepsValid m (λ db v. v) h

run-Valid :
    (db : Db) (id : ℕ) (f : RunRow → RunRow)
    → ((r : RunRow) → (f r).id ≡ r.id)
    → KeepsValid db (update_run id f db)
run-Valid db id f same (a, j, m, c, n, p, q, r, h) =
    let r' = update_where-IsKeyed (λ s. s.id) (is_run id) f db.runs same r in
    (a, j, m, c, n, p, q, r', h)

make_commit-Valid : (sha : String) (db : Db) → KeepsValid db (add_commit sha db).1
unfolding add_commit
make_commit-Valid sha db (a, j, m, c, n, p, q, r, h) =
    elim (Bool-cases (any (λ (s : CommitRow). s.sha =? sha) db.commits.rows)) [
      | inl y ↦ rw y (a, j, m, c, n, p, q, r, h)
      | inr e ↦
          let c' = insert-keeps (λ s. s.id) same_sha (commit_row sha) db.commits refl e c in
          rw e (a, j, m, c', n, p, q, r, h)
    ]

put_metric-Valid :
    (run : ℕ) (name value : String) (db : Db)
    → KeepsValid db (
        if any (is_metric run name) db.metrics.rows
        then record db {
          metrics = update_where (is_metric run name) (λ m. record m { value = value }) db.metrics;
        }
        else record db { metrics = insert (metric_row run name value) db.metrics })
put_metric-Valid run name value db (a, j, (k, u), c, n, p, q, r, h) =
    let f = λ (s : MetricRecord). record s { value = value } in
    elim (Bool-cases (any (is_metric run name) db.metrics.rows)) [
      | inl y ↦
          let k' =
            update_where-IsKeyed (λ s. s.id) (is_metric run name) f db.metrics (λ s. refl) k in
          let u' =
            IsUnique-update same_metric (is_metric run name) f db.metrics.rows (λ s t. refl)
              (λ s t. refl) u in
          rw y (a, j, (k', u'), c, n, p, q, r, h)
      | inr e ↦
          let m' =
            insert-keeps (λ s. s.id) same_metric (metric_row run name value) db.metrics refl e
              (k, u) in
          rw e (a, j, m', c, n, p, q, r, h)
    ]

abbrev IsNumbered : ℕ → Option (ℕ → Remote) → Type 0
IsNumbered i none = Unit
IsNumbered i (some make) = (make i).id ≡ i

-- The row of a remote has the id that it is given.
remote_for-IsNumbered :
    (repo_id : ℕ) (remote kind config : String) (i : ℕ)
    → IsNumbered i (remote_for repo_id remote kind config)
unfolding remote_for
remote_for-IsNumbered repo_id remote kind config i = elim (Bool-cases (kind =? "github")) [
  | inl y ↦ rw y refl
  | inr n ↦
      rw n (elim (Bool-cases (kind =? "github-email")) [ inl y ↦ rw y refl | inr e ↦ rw e tt ])
]

pub run_method-Valid : {B : Type 0} (m : Method B) → Respects KeepsValid (run_method m)
unfolding run_method add_run add_commit find_or_add_host insert_or_ignore_host commit_sha new_run
    record_start record_result reap_task new_commit update_commit_name insert_metric new_repo
    new_remote id_for_host same_unique host_row add_artifact finalize_artifact set_started
    set_completed set_reaped
run_method-Valid (query found) = locked-Valid (λ db. (found db, db)) (λ db v. v)
run_method-Valid (sha_of_commit id) = locked-Valid _ λ db v.
    elim (Option-cases (by_id (λ (c : CommitRow). c.id) id db.commits.rows)) [
      | inl n ↦ rw n v
      | inr (c, e) ↦ rw e v
    ]
run_method-Valid (queue_run now job_id host) =
    locked-Valid (add_run now job_id host) λ db (a, j, m, c, n, p, q, r, h).
      let r' = insert-IsKeyed (λ s. s.id) (fresh_run now job_id host) db.runs refl r in
      (a, j, m, c, n, p, q, r', h)
run_method-Valid (start_run now id host path token) =
    locked-Valid _ λ db. run-Valid db id (set_started now host path token) (λ s. refl)
run_method-Valid (finish_run now id info) = locked-Valid _ λ db.
    run-Valid db id
      (set_completed now (verdict info).1 (result_of (verdict info).0) (text_of (verdict info).0))
      (λ s. refl)
run_method-Valid (reap_run id) = locked-Valid _ λ db. run-Valid db id set_reaped (λ s. refl)
run_method-Valid (make_commit sha) = locked-Valid _ (make_commit-Valid sha)
run_method-Valid (make_job now remote_id commit_id pusher pref) =
    locked-Valid (add_job now remote_id commit_id pusher pref) λ db (a, j, m, c, n, p, q, r, h).
      let row = job_row now remote_id commit_id pusher pref in
      let j' = insert-IsKeyed (λ s. s.id) row db.jobs refl j in (a, j', m, c, n, p, q, r, h)
run_method-Valid (name_commit id name) = locked-Valid _ λ db (a, j, m, c, n, p, q, r, h).
    let n' = insert-IsKeyed (λ s. s.id) (name_row id name) db.commit_names refl n in
    (a, j, m, c, n', p, q, r, h)
run_method-Valid (make_artifact now run name desc) =
    locked-Valid _ λ db (a, j, m, c, n, p, q, r, h).
      let row = artifact_row now run name desc in
      let a' = insert-IsKeyed (λ s. s.id) row db.artifacts refl a in (a', j, m, c, n, p, q, r, h)
run_method-Valid (end_artifact now id) = locked-Valid _ λ db (a, j, m, c, n, p, q, r, h).
    let f = λ (s : ArtifactRecord). record s { completed_time = some now } in
    let a' = update_where-IsKeyed (λ s. s.id) (λ s. s.id == id) f db.artifacts (λ s. refl) a in
    (a', j, m, c, n, p, q, r, h)
run_method-Valid (put_metric run name value) = locked-Valid _ (put_metric-Valid run name value)
run_method-Valid (make_repo name) = locked-Valid _ λ db (a, j, m, c, n, p, q, r, h).
    elim (Bool-cases (any (λ (s : Repo). s.name =? name) db.repos.rows)) [
      | inl y ↦ rw y (a, j, m, c, n, p, q, r, h)
      | inr e ↦
          let p' = insert-keeps (λ s. s.id) same_name (repo_row name) db.repos refl e p in
          rw e (a, j, m, c, n, p', q, r, h)
    ]
run_method-Valid (make_remote repo_id remote kind config) =
    elim (Option-cases (remote_for repo_id remote kind config)) [
      | inl n ↦ rw n (record { made = λ ctx v. v })
      | inr (make, e) ↦ rw e (
          locked-Valid (add_remote make) λ db (a, j, m, c, n, p, q, r, h).
            let given : (make (suc db.remotes.seq)).id ≡ suc db.remotes.seq =
              rw e at (remote_for-IsNumbered repo_id remote kind config (suc db.remotes.seq)) in
            let q' = insert-IsKeyed (λ s. s.id) make db.remotes given q in
            (a, j, m, c, n, p, q', r, h))
    ]
run_method-Valid (host_id host) = locked-Valid _ λ db (a, j, m, c, n, p, q, r, h).
    elim (Bool-cases (any (same_unique host) db.hosts.rows)) [
      | inl y ↦ rw y (a, j, m, c, n, p, q, r, h)
      | inr e ↦
          let h' = insert-keeps (λ s. s.id) same_columns (host_row host) db.hosts refl e h in
          rw e (a, j, m, c, n, p, q, r, h')
    ]
