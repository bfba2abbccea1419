-- ===== src/Driver/Reaper/Stale.antt =====
-- Which runs `old_task_reaper` of ci-driver/src/main.rs reaps, by the rows of the table.
use build_o_tron.Base.{
  ℕ, zero, suc, ◌+◌, ◌≡◌, refl, sym, ◌∙◌, ap, Bool, true, false, ◌&&◌, Option, none, some, List, [],
  ◌∷◌, All, ◌==◌, ltb, select, Bool-cases, inl, inr, if◌then◌else◌, arith, ok, ==_iff,
}
use build_o_tron.Core.Sql.{Run, RunState, run_state_of}
use build_o_tron.Core.Db.{RunRow}
use build_o_tron.Core.DbCtx.Runs.{row2run, rows2runs}
use build_o_tron.Core.DbCtx.Runs.Read.{row2run-run_of, rows2runs-head}
use build_o_tron.Driver.Reaper.{stale, is_stale}
use build_o_tron.Driver.Reaper.Removal.{
  position, swap_remove, remove_active, remove_at, init, last_or,
}
use build_o_tron.Driver.Reaper.Spares.{count}

-- A row whose run should be worked on: it is started, and not since the threshold.
abbrev pub started_before : Option ℕ → ℕ → Bool
started_before none threshold = true
started_before (some t) threshold = ltb t threshold

abbrev pub row_stale : ℕ → RunRow → Bool
row_stale threshold r = r.state == 1 && started_before r.started_time threshold

stale-code :
    (n : ℕ) (s : RunState) (start : Option ℕ) (threshold : ℕ)
    → run_state_of n ≡ ok s
    → stale s start threshold ≡ (n == 1 && started_before start threshold)
unfolding run_state_of
stale-code zero s start threshold h = let k : RunState.pending ≡ s = cc h in rw (← k) refl
stale-code (suc zero) s none threshold h = let k : RunState.started ≡ s = cc h in rw (← k) refl
stale-code (suc zero) s (some t) threshold h = let k : RunState.started ≡ s = cc h in rw (← k) refl
stale-code (suc (suc zero)) s start threshold h =
    let k : RunState.finished ≡ s = cc h in rw (← k) refl
stale-code (suc (suc (suc zero))) s start threshold h =
    let k : RunState.error ≡ s = cc h in rw (← k) refl
stale-code (suc (suc (suc (suc zero)))) s start threshold h =
    let k : RunState.invalid ≡ s = cc h in rw (← k) refl
stale-code (suc (suc (suc (suc (suc n))))) s start threshold h = cc h

row2run-row_stale :
    (threshold : ℕ) (r : RunRow) (run : Run)
    → row2run r ≡ ok run
    → (run.id ≡ r.id) × (is_stale threshold run ≡ row_stale threshold r)
unfolding is_stale
row2run-row_stale threshold r run h =
    let (s, e, k) = row2run-run_of r run h in
    rw k (refl, stale-code r.state s r.started_time threshold e)

abbrev pub count_rows : ℕ → List RunRow → ℕ
count_rows id [] = 0
count_rows id (r ∷ rows) = (if r.id == id then 1 else 0) + count_rows id rows

pub rows2runs-count :
    (id : ℕ) (rows : List RunRow) (runs : List Run)
    → rows2runs rows ≡ ok runs
    → count id runs ≡ count_rows id rows
unfolding rows2runs
rows2runs-count id [] runs h = let k : [] ≡ runs = cc h in rw (← k) refl
rows2runs-count id (r ∷ rows) runs h =
    let (run, (later, (e, f, k))) = rows2runs-head r rows runs h in
    let (same, z) = row2run-row_stale 0 r run e in
    rw k (rw same (ap (λ n. (if r.id == id then 1 else 0) + n) (rows2runs-count id rows later f)))

-- A run with the id is as stale as `b` says.
abbrev pub Stale : ℕ → ℕ → Bool → Run → Type 0
Stale id threshold b run = run.id ≡ id → is_stale threshold run ≡ b

pub rows2runs-Stale :
    (id threshold : ℕ) (b : Bool) (rows : List RunRow) (runs : List Run)
    → rows2runs rows ≡ ok runs
    → All (λ (r : RunRow). r.id ≡ id → row_stale threshold r ≡ b) rows
    → All (Stale id threshold b) runs
unfolding rows2runs
rows2runs-Stale id threshold b [] runs h a = let k : [] ≡ runs = cc h in rw (← k) tt
rows2runs-Stale id threshold b (r ∷ rows) runs h a =
    let (run, (later, (e, f, k))) = rows2runs-head r rows runs h in
    let (same, z) = row2run-row_stale threshold r run e in
    rw k (λ q. z ∙ a.0 (sym same ∙ q), rows2runs-Stale id threshold b rows later f a.1)

module _ (P : Run → Type 0) where
  All-last_init :
      (y : Run) (ys : List Run) → P y → All P ys → P (last_or y ys) × All P (init (y ∷ ys))
  All-last_init y [] p h = (p, tt)
  All-last_init y (z ∷ ys) p h = let (l, i) = All-last_init z ys h.0 h.1 in (l, (p, i))

  All-swap_remove : (i : ℕ) (runs : List Run) → All P runs → All P (swap_remove runs i)
  unfolding swap_remove
  All-swap_remove zero [] h = tt
  All-swap_remove (suc i) [] h = tt
  All-swap_remove zero (r ∷ []) h = tt
  All-swap_remove zero (r ∷ y ∷ ys) h = All-last_init y ys h.1.0 h.1.1
  All-swap_remove (suc i) (r ∷ []) h = (h.0, All-swap_remove i [] h.1)
  All-swap_remove (suc i) (r ∷ y ∷ ys) h = (h.0, All-swap_remove i (y ∷ ys) h.1)

  All-remove_at : (found : Option ℕ) (runs : List Run) → All P runs → All P (remove_at found runs)
  All-remove_at none runs h = h
  All-remove_at (some i) runs h = All-swap_remove i runs h

  pub All-remove_active :
      (active : List ℕ) (runs : List Run) → All P runs → All P (remove_active active runs)
  unfolding remove_active
  All-remove_active [] runs h = h
  All-remove_active (a ∷ active) runs h =
      All-remove_active active (remove_at (position a runs) runs)
        (All-remove_at (position a runs) runs h)

pub count-select-Stale :
    (id threshold : ℕ) (b : Bool) (runs : List Run)
    → All (Stale id threshold b) runs
    → count id (select (is_stale threshold) runs) ≡ (if b then count id runs else 0)
count-select-Stale id threshold true [] h = refl
count-select-Stale id threshold false [] h = refl
count-select-Stale id threshold b (r ∷ rs) h =
    let later = count-select-Stale id threshold b rs h.1 in
    elim (Bool-cases (r.id == id)) [
      | inl y ↦
          let q : is_stale threshold r ≡ b = h.0 ((==_iff r.id id).0 y) in
          elim (Bool-cases b) [
            | inl t ↦
                let l : count id (select (is_stale threshold) rs) ≡ count id rs = rw t at later in
                rw (q ∙ t) (rw t (rw y (ap (λ n. 1 + n) l)))
            | inr n ↦
                let l : count id (select (is_stale threshold) rs) ≡ 0 = rw n at later in
                rw (q ∙ n) (rw n l)
          ]
      | inr n ↦ elim (Bool-cases (is_stale threshold r)) [
        | inl t ↦ rw t (rw n (ground (arith, later)))
        | inr f ↦ rw f (rw n (ground (arith, later)))
      ]
    ]
