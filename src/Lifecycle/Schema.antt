-- ===== src/Lifecycle/Schema.antt =====
-- What the statements of ci-lib-core/src/dbctx.rs rely on in their tables: each id is of one row, and
-- the columns that a constraint keeps from repeating do not. For commits, repos and hosts these are
-- the constraints of ci-lib-core/src/sql.rs; for metrics they are those of the `on conflict` in
-- `insert_metric`, which `CREATE_METRICS_TABLE` does not make.
use build_o_tron.Base.{
  ℕ, suc, ◌≡◌, Bool, true, false, ◌&&◌, List, [], ◌∷◌, ◌++◌, All, any, update, ◌==◌, ◌=?◌,
  Bool-cases, inl, inr,
}
use build_o_tron.Core.Sql.{MetricRecord, ArtifactRecord, Repo, Remote, Job}
use build_o_tron.Core.Table.{
  Table, insert, insert-IsKeyed, empty, IsKeyed, All-append, All-update, All-map,
}
use build_o_tron.Core.Db.{Db, RunRow, CommitRow, CommitNameRow, HostRow, empty_db}

module _ {ℓ} {R : Type ℓ} (same : R → R → Bool) where
  -- No two rows are the same.
  abbrev pub IsUnique : List R → Type 0
  IsUnique [] = Unit
  IsUnique (r ∷ rows) = All (λ s. same r s ≡ false) rows × IsUnique rows

  -- A row is put in where the test for one like it finds none.
  IsUnique-append :
      (rows : List R) (r : R)
      → any (λ s. same s r) rows ≡ false
      → IsUnique rows
      → IsUnique (rows ++ (r ∷ []))
  IsUnique-append [] r h u = (tt, tt)
  IsUnique-append (q ∷ rows) r h u = elim (Bool-cases (same q r)) [
    | inl y ↦ let k : true ≡ false = rw y at h in cc k
    | inr n ↦
        (All-append (λ s. same q s ≡ false) rows r u.0 n, IsUnique-append rows r (rw n at h) u.1)
  ]

  pub IsUnique-update :
      (p : R → Bool) (f : R → R) (rows : List R)
      → ((r s : R) → same (f r) s ≡ same r s)
      → ((r s : R) → same r (f s) ≡ same r s)
      → IsUnique rows
      → IsUnique (update p f rows)
  IsUnique-update p f [] left right u = tt
  IsUnique-update p f (r ∷ rows) left right u = elim (Bool-cases (p r)) [
    | inl y ↦ rw y (
      All-update (λ s. same (f r) s ≡ false) p f rows (λ s e. rw right e)
          (All-map (λ s. same r s ≡ false) (λ s. same (f r) s ≡ false) rows (λ s e. rw left e) u.0),
      IsUnique-update p f rows left right u.1,
    )
    | inr n ↦ rw n (
      All-update (λ s. same r s ≡ false) p f rows (λ s e. rw right e) u.0,
      IsUnique-update p f rows left right u.1,
    )
  ]

-- A row like which there is none is put in.
pub insert-keeps :
    {R : Type 0} (key : R → ℕ) (same : R → R → Bool) (make : ℕ → R) (t : Table R)
    → key (make (suc t.seq)) ≡ suc t.seq
    → any (λ s. same s (make (suc t.seq))) t.rows ≡ false
    → IsKeyed key t × IsUnique same t.rows
    → IsKeyed key (insert make t) × IsUnique same (insert make t).rows
insert-keeps key same make t given e (k, u) =
    (insert-IsKeyed key make t given k, IsUnique-append same t.rows (make (suc t.seq)) e u)

abbrev pub same_sha : CommitRow → CommitRow → Bool
same_sha r s = r.sha =? s.sha

abbrev pub same_name : Repo → Repo → Bool
same_name r s = r.name =? s.name

abbrev pub same_metric : MetricRecord → MetricRecord → Bool
same_metric r s = r.run_id == s.run_id && r.name =? s.name

abbrev pub same_columns : HostRow → HostRow → Bool
same_columns r s =
    r.hostname =? s.hostname
    && r.cpu_vendor_id =? s.cpu_vendor_id
    && r.cpu_model_name =? s.cpu_model_name
    && r.cpu_family =? s.cpu_family
    && r.cpu_model =? s.cpu_model
    && r.cpu_microcode =? s.cpu_microcode
    && r.cpu_cores == s.cpu_cores
    && r.mem_total =? s.mem_total
    && r.arch =? s.arch
    && r.family =? s.family
    && r.os =? s.os

-- The constraints of artifacts, jobs, metrics, commits, their names, repos, remotes, runs and hosts.
abbrev pub IsValid : Db → Type 0
IsValid db =
    IsKeyed (λ (r : ArtifactRecord). r.id) db.artifacts
    × IsKeyed (λ (r : Job). r.id) db.jobs
    × (IsKeyed (λ (r : MetricRecord). r.id) db.metrics × IsUnique same_metric db.metrics.rows)
    × (IsKeyed (λ (r : CommitRow). r.id) db.commits × IsUnique same_sha db.commits.rows)
    × IsKeyed (λ (r : CommitNameRow). r.id) db.commit_names
    × (IsKeyed (λ (r : Repo). r.id) db.repos × IsUnique same_name db.repos.rows)
    × IsKeyed (λ (r : Remote). r.id) db.remotes
    × IsKeyed (λ (r : RunRow). r.id) db.runs
    × (IsKeyed (λ (r : HostRow). r.id) db.hosts × IsUnique same_columns db.hosts.rows)

empty-IsKeyed : {R : Type 0} (key : R → ℕ) → IsKeyed key empty
empty-IsKeyed key = record { bounded = tt; ascending = tt }

pub empty_db-IsValid : IsValid empty_db
empty_db-IsValid = (
  empty-IsKeyed _,
  empty-IsKeyed _,
  (empty-IsKeyed _, tt),
  (empty-IsKeyed _, tt),
  empty-IsKeyed _,
  (empty-IsKeyed _, tt),
  empty-IsKeyed _,
  empty-IsKeyed _,
  (empty-IsKeyed _, tt),
)
