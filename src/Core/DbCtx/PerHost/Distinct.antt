-- ===== src/Core/DbCtx/PerHost/Distinct.antt =====
-- How many runs of a host `runs_for_job_one_per_host` of ci-lib-core/src/dbctx.rs gives.
use build_o_tron.Base.{
  ℕ, ◌+◌, ◌≡◌, ◌∙◌, sym, subst, refl, ap, Bool, true, false, ◌&&◌, Option, none, some, List, [],
  ◌∷◌, ok, inl, inr, Bool-cases, any, select, All, Memᴰ, ◌==◌, ==_iff, arith, if◌then◌else◌,
}
use build_o_tron.Core.Sql.{Run}
use build_o_tron.Core.Db.{RunRow}
use build_o_tron.Core.DbCtx.Lock.{DbCtx, locked-ok}
use build_o_tron.Core.DbCtx.Runs.{rows2runs}
use build_o_tron.Core.DbCtx.Runs.Read.{row2run-run_of, rows2runs-head}
use build_o_tron.Core.DbCtx.PerHost.{
  same_group, on_host, choose_each, not_behind, insert_run, order_runs, runs_for_job_one_per_host,
}

same_group-eq : (a b : Option ℕ) → same_group a b ≡ true → a ≡ b
same_group-eq none none h = refl
same_group-eq none (some b) h = cc h
same_group-eq (some a) none h = cc h
same_group-eq (some a) (some b) h = ap some ((==_iff a b).0 h)

same_group_refl : (a : Option ℕ) → same_group a a ≡ true
same_group_refl none = refl
same_group_refl (some a) = ground arith

same_group_comm : (a b : Option ℕ) → same_group a b ≡ same_group b a
same_group_comm none none = refl
same_group_comm none (some b) = refl
same_group_comm (some a) none = refl
same_group_comm (some a) (some b) = ground arith

-- How many of the rows are on the host.
abbrev pub count_rows : Option ℕ → List RunRow → ℕ
count_rows host [] = 0
count_rows host (r ∷ rows) = (if on_host host r then 1 else 0) + count_rows host rows

count-insert_run :
    (host : Option ℕ) (r : RunRow) (rows : List RunRow)
    → count_rows host (insert_run r rows) ≡ (if on_host host r then 1 else 0) + count_rows host rows
count-insert_run host r [] = refl
count-insert_run host r (q ∷ rows) = elim (Bool-cases (not_behind r q)) [
  | inl y ↦ rw y refl
  | inr n ↦ rw n (omega (arith, count-insert_run host r rows))
]

count-order_runs :
    (host : Option ℕ) (rows : List RunRow)
    → count_rows host (order_runs rows) ≡ count_rows host rows
count-order_runs host [] = refl
count-order_runs host (r ∷ rows) =
    omega (arith, count-insert_run host r (order_runs rows), count-order_runs host rows)

All-member :
    (P : RunRow → Type 0) (rows : List RunRow) (x : RunRow) → All P rows → Memᴰ x rows → P x
All-member P [] x h m = elim m [ ]
All-member P (r ∷ rows) x h (Memᴰ.head e) = subst P (sym e) h.0
All-member P (r ∷ rows) x h (Memᴰ.tail m) = All-member P rows x h.1 m

select-on_host :
    (host : Option ℕ) (rows : List RunRow)
    → All (λ q. q.host_id ≡ host) (select (on_host host) rows)
select-on_host host [] = tt
select-on_host host (r ∷ rows) = elim (Bool-cases (on_host host r)) [
  | inl y ↦ rw y (same_group-eq r.host_id host y, select-on_host host rows)
  | inr n ↦ rw n (select-on_host host rows)
]

module _ (choose : RunRow → List RunRow → RunRow)
    (member : (r : RunRow) (rows : List RunRow) → Memᴰ (choose r rows) (r ∷ rows)) where
  chosen-host :
      (r : RunRow) (rows : List RunRow)
      → (choose r (select (on_host r.host_id) rows)).host_id ≡ r.host_id
  chosen-host r rows =
      All-member (λ q. q.host_id ≡ r.host_id) (r ∷ select (on_host r.host_id) rows) _
        (refl, select-on_host r.host_id rows) (member r (select (on_host r.host_id) rows))

  count-choose_each :
      (host : Option ℕ) (seen : List (Option ℕ)) (rows : List RunRow)
      → count_rows host (choose_each choose seen rows)
        ≡ (if any (same_group host) seen then 0 else if any (on_host host) rows then 1 else 0)
  unfolding choose_each
  count-choose_each host seen [] = ground arith
  count-choose_each host seen (r ∷ rows) = elim (Bool-cases (any (same_group r.host_id) seen)) [
    | inl y ↦ rw y (
        count-choose_each host seen rows ∙ elim (Bool-cases (same_group r.host_id host)) [
          | inl t ↦
              let e : r.host_id ≡ host = same_group-eq r.host_id host t in
              let z : any (same_group host) seen ≡ true = rw e at y in rw z refl
          | inr f ↦ rw f refl
        ])
    | inr n ↦ rw n (
        rw (chosen-host r rows) (elim (Bool-cases (same_group r.host_id host)) [
          | inl t ↦
              let e : r.host_id ≡ host = same_group-eq r.host_id host t in
              let z : any (same_group host) seen ≡ false = rw e at n in
              let later = count-choose_each host (r.host_id ∷ seen) rows in
              rw t (
                rw z (
                  let u : same_group host r.host_id ≡ true = rw e (same_group_refl host) in
                  omega (arith, rw u at later)))
          | inr f ↦
              let u : same_group host r.host_id ≡ false = same_group_comm host r.host_id ∙ f in
              let later = count-choose_each host (r.host_id ∷ seen) rows in
              rw f (omega (arith, rw u at later))
        ]))
  ]

abbrev pub count_runs : Option ℕ → List Run → ℕ
count_runs host [] = 0
count_runs host (r ∷ runs) = (if same_group r.host_id host then 1 else 0) + count_runs host runs

count-rows2runs :
    (host : Option ℕ) (rows : List RunRow) (runs : List Run)
    → rows2runs rows ≡ ok runs
    → count_runs host runs ≡ count_rows host rows
unfolding rows2runs
count-rows2runs host [] runs h = let k : [] ≡ runs = cc h in rw (← k) refl
count-rows2runs host (r ∷ rows) runs h =
    let (run, (later, (e, f, k))) = rows2runs-head r rows runs h in
    let (s, g, q) = row2run-run_of r run e in
    rw k (
      rw q (
        ap (λ n. (if same_group r.host_id host then 1 else 0) + n)
          (count-rows2runs host rows later f)))

any-select :
    (host : Option ℕ) (p : RunRow → Bool) (rows : List RunRow)
    → any (on_host host) (select p rows) ≡ any (λ r. p r && on_host host r) rows
any-select host p [] = refl
any-select host p (r ∷ rows) = elim (Bool-cases (p r)) [
  | inl y ↦ rw y (ground (arith, any-select host p rows))
  | inr n ↦ rw n (any-select host p rows)
]

-- Whichever run of each group SQLite chooses, as long as it is one of the group, the answer has one run
-- for each host that has a run of the job, and none for another; so too for the runs without a host.
pub runs_for_job_one_per_host-count :
    (choose : RunRow → List RunRow → RunRow) (job_id : ℕ) (ctx : DbCtx) (runs : List Run)
    (host : Option ℕ)
    → ((r : RunRow) (rows : List RunRow) → Memᴰ (choose r rows) (r ∷ rows))
    → (runs_for_job_one_per_host choose job_id ctx).0 ≡ ok runs
    → count_runs host runs
      ≡ (if any (λ r. r.job_id == job_id && on_host host r) ctx.db.runs.rows then 1 else 0)
unfolding runs_for_job_one_per_host
runs_for_job_one_per_host-count choose job_id ctx runs host member h =
    let of_job : RunRow → Bool = λ r. r.job_id == job_id in
    let rows = select of_job ctx.db.runs.rows in
    let (p, e, after) =
      locked-ok
        (λ db. (
          rows2runs (
              order_runs
                (choose_each choose [] (select (λ (r : RunRow). r.job_id == job_id) db.runs.rows))),
          db,
        ))
        ctx runs h in
    count-rows2runs host (order_runs (choose_each choose [] rows)) runs e
    ∙ (count-order_runs host (choose_each choose [] rows)
        ∙ (count-choose_each choose member host [] rows
            ∙ ap (λ b. if b then 1 else 0) (any-select host of_job ctx.db.runs.rows)))
