-- ===== src/Core/DbCtx/Runs/Read.antt =====
-- What `row2run` of ci-lib-core/src/dbctx.rs reads, and the rows of a query one by one.
use build_o_tron.Base.{◌≡◌, List, ◌∷◌, inl, inr, ok, err, panic, Outcome-cases}
use build_o_tron.Core.Sql.{Run, RunState, run_state_of}
use build_o_tron.Core.Db.{RunRow}
use build_o_tron.Core.DbCtx.Runs.{run_of, row2run, rows2runs}

pub row2run-run_of :
    (r : RunRow) (run : Run)
    → row2run r ≡ ok run
    → (s : RunState) × (run_state_of r.state ≡ ok s) × (run ≡ run_of r s)
unfolding row2run
row2run-run_of r run h = elim (Outcome-cases (run_state_of r.state)) [
  | inl (s, e) ↦ let k : ok (run_of r s) ≡ ok run = rw (e, row2run) at h in (s, e, cc k)
  | inr (inl (x, e)) ↦ let k : panic x ≡ ok run = rw (e, row2run) at h in cc k
  | inr (inr (x, e)) ↦ let k : panic x ≡ ok run = rw (e, row2run) at h in cc k
]

-- The rows that are read, one by one.
pub rows2runs-head :
    (r : RunRow) (rows : List RunRow) (runs : List Run)
    → rows2runs (r ∷ rows) ≡ ok runs
    → (run : Run) × ((later : List Run) × ((row2run r ≡ ok run)
          × (rows2runs rows ≡ ok later)
          × (runs ≡ run ∷ later)))
unfolding rows2runs
rows2runs-head r rows runs h = elim (Outcome-cases (row2run r)) [
  | inl (run, e) ↦ elim (Outcome-cases (rows2runs rows)) [
    | inl (later, f) ↦
        let k : ok (run ∷ later) ≡ ok runs = rw (e, f, rows2runs) at h in
        (run, (later, (e, f, cc k)))
    | inr (inl (x, f)) ↦ let k : err x ≡ ok runs = rw (e, f, rows2runs) at h in cc k
    | inr (inr (x, f)) ↦ let k : panic x ≡ ok runs = rw (e, f, rows2runs) at h in cc k
  ]
  | inr (inl (x, e)) ↦ let k : err x ≡ ok runs = rw (e, rows2runs) at h in cc k
  | inr (inr (x, e)) ↦ let k : panic x ≡ ok runs = rw (e, rows2runs) at h in cc k
]
