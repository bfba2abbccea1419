-- ===== src/Core/DbCtx/Artifacts/Metrics.antt =====
-- The upsert of `insert_metric`, ci-lib-core/src/dbctx.rs.
use mathlib.Core.Option
use text.Mathlib.TextEquality.{eq_iff}
use build_o_tron.Base.{
  ℕ, suc, String, ◌≡◌, refl, Bool, true, false, ◌&&◌, Option, some, List, [], ◌∷◌, ◌++◌, any,
  first?, update, ◌==◌, ◌=?◌, Bool-cases, inl, inr, if◌then◌else◌, arith,
}
use build_o_tron.Core.Sql.{MetricRecord}
use build_o_tron.Core.DbCtx.Lock.{DbCtx}
use build_o_tron.Core.DbCtx.Artifacts.{is_metric, insert_metric}

-- The value that a run has for a metric.
abbrev pub metric_value : ℕ → String → List MetricRecord → Option String
metric_value run name rows =
    Option.map (λ (m : MetricRecord). m.value) (first? (is_metric run name) rows)

abbrev same_metric : ℕ → String → ℕ → String → Bool
same_metric run name run' name' = run == run' && name =? name'

value-append :
    (run run' : ℕ) (name name' value : String) (i : ℕ) (rows : List MetricRecord)
    → any (is_metric run name) rows ≡ false
    → metric_value run' name'
        (rows ++ (record { id = i; run_id = run; name = name; value = value } ∷ []))
      ≡ (if same_metric run name run' name' then some value else metric_value run' name' rows)
value-append run run' name name' value i [] e = ground arith
value-append run run' name name' value i (m ∷ rows) e = ground (
  arith,
  eq_iff name name',
  eq_iff m.name name,
  eq_iff m.name name',
  value-append run run' name name' value i rows,
)

abbrev with_value : String → MetricRecord → MetricRecord
with_value value m = record m { value = value }

value-update_other :
    (run run' : ℕ) (name name' value : String) (rows : List MetricRecord)
    → same_metric run name run' name' ≡ false
    → metric_value run' name' (update (is_metric run name) (with_value value) rows)
      ≡ metric_value run' name' rows
value-update_other run run' name name' value [] n = refl
value-update_other run run' name name' value (m ∷ rows) n =
    elim (Bool-cases (is_metric run name m)) [
      | inl e ↦ rw e (
          ground (
            arith,
            eq_iff name name',
            eq_iff m.name name,
            eq_iff m.name name',
            value-update_other run run' name name' value rows,
          ))
      | inr e ↦ rw e (ground (arith, value-update_other run run' name name' value rows))
    ]

value-update_self :
    (run : ℕ) (name value : String) (rows : List MetricRecord)
    → any (is_metric run name) rows ≡ true
    → metric_value run name (update (is_metric run name) (with_value value) rows) ≡ some value
value-update_self run name value [] e = cc
value-update_self run name value (m ∷ rows) e = elim (Bool-cases (is_metric run name m)) [
  | inl y ↦ rw y (rw y)
  | inr n ↦ rw n (rw n (value-update_self run name value rows (rw n at e)))
]

same_metric_iff :
    (run run' : ℕ) (name name' : String)
    → same_metric run name run' name' ≡ true
    → (run ≡ run') × (name ≡ name')
same_metric_iff run run' name name' h = ground (arith, eq_iff name name')

value-update :
    (run run' : ℕ) (name name' value : String) (rows : List MetricRecord)
    → any (is_metric run name) rows ≡ true
    → metric_value run' name' (update (is_metric run name) (with_value value) rows)
      ≡ (if same_metric run name run' name' then some value else metric_value run' name' rows)
value-update run run' name name' value rows e =
    elim (Bool-cases (same_metric run name run' name')) [
      | inl y ↦
          let (r, n) = same_metric_iff run run' name name' y in
          rw y (rw (← r) (rw (← n) (value-update_self run name value rows e)))
      | inr n ↦ rw n (value-update_other run run' name name' value rows n)
    ]

-- After a metric is reported over an unpoisoned lock, its run has the reported value for that name;
-- every other metric, of this run or another, has the value that it had.
pub metric_value-insert :
    (run run' : ℕ) (name name' value : String) (ctx : DbCtx)
    → ctx.poisoned ≡ false
    → metric_value run' name' (insert_metric run name value ctx).1.db.metrics.rows ≡ (
        if same_metric run name run' name'
        then some value
        else metric_value run' name' ctx.db.metrics.rows)
unfolding insert_metric
metric_value-insert run run' name name' value ctx p =
    elim (Bool-cases (any (is_metric run name) ctx.db.metrics.rows)) [
      | inl e ↦ rw p (rw e (value-update run run' name name' value ctx.db.metrics.rows e))
      | inr e ↦ rw p (
          rw e
            (value-append run run' name name' value (suc ctx.db.metrics.seq) ctx.db.metrics.rows e))
    ]
