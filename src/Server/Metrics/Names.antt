-- ===== src/Server/Metrics/Names.antt =====
-- The names that `summarize_job_metrics` of ci-web-server/src/main.rs collects.
use text.Mathlib.TextEquality.{eq_iff}
use build_o_tron.Base.{
  String, ◌≡◌, refl, ap, ◌∙◌, Bool, false, ◌||◌, List, [], ◌∷◌, ◌++◌, any, ◌=?◌, Bool-cases, inl,
  inr, if◌then◌else◌, arith,
}
use build_o_tron.Core.Sql.{MetricRecord}
use build_o_tron.Server.Metrics.{MetricsMap, contains, add_metrics}

-- No name twice.
abbrev pub IsDistinct : List String → Type 0
IsDistinct [] = Unit
IsDistinct (n ∷ names) = (contains names n ≡ false) × IsDistinct names

abbrev pub reports : List MetricRecord → String → Bool
reports ms name = any (λ (m : MetricRecord). m.name =? name) ms

contains-append :
    (names : List String) (new name : String)
    → contains (names ++ (new ∷ [])) name ≡ (contains names name || new =? name)
contains-append [] new name = ground arith
contains-append (n ∷ names) new name = ground (arith, contains-append names new name)

append-IsDistinct :
    (names : List String) (new : String)
    → contains names new ≡ false
    → IsDistinct names
    → IsDistinct (names ++ (new ∷ []))
append-IsDistinct [] new c d = (refl, tt)
append-IsDistinct (n ∷ names) new c d = (
  contains-append names new n ∙ ground (arith, eq_iff n new, eq_iff new n, d.0),
  append-IsDistinct names new (ground arith) d.1,
)

add_name-IsDistinct :
    (names : List String) (new : String)
    → IsDistinct names
    → IsDistinct (if contains names new then names else names ++ (new ∷ []))
add_name-IsDistinct names new d = elim (Bool-cases (contains names new)) [
  | inl y ↦ rw y d
  | inr n ↦ rw n (append-IsDistinct names new n d)
]

add_name-contains :
    (names : List String) (new name : String)
    → contains (if contains names new then names else names ++ (new ∷ [])) name
      ≡ (contains names name || new =? name)
add_name-contains names new name = elim (Bool-cases (contains names new)) [
  | inl y ↦ rw y (elim (Bool-cases (new =? name)) [
    | inl e ↦ let q : new ≡ name = (eq_iff new name).0 e in ground (arith, ap (contains names) q)
    | inr f ↦ ground arith
  ])
  | inr n ↦ rw n (contains-append names new name)
]

-- From names without a repetition, the loop over a run's metrics makes names without a repetition:
-- those that were there, and those that the run reports.
pub add_metrics-names :
    (names : List String) (values : MetricsMap) (ms : List MetricRecord) (name : String)
    → IsDistinct names
    → IsDistinct (add_metrics names values ms).0
      × (contains (add_metrics names values ms).0 name ≡ (contains names name || reports ms name))
unfolding add_metrics
add_metrics-names names values [] name d = (d, ground arith)
add_metrics-names names values (m ∷ ms) name d =
    let (u, v) =
      add_metrics-names (if contains names m.name then names else names ++ (m.name ∷ []))
        ((m.name, m.value) ∷ values) ms name (add_name-IsDistinct names m.name d) in
    (u, ground (arith, v, add_name-contains names m.name name))
