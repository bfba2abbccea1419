-- ===== src/Driver/FindWork/Found.antt =====
-- What `find_client_task` may hand to a runner, and when its search ends (ci-driver/src/main.rs).
use build_o_tron.Base.{
  ℕ, String, ◌≡◌, ◌≢◌, ◌⊎◌, refl, sym, true, false, Option, none, some, List, [], ◌∷◌, ok, err,
  panic, Action, Bool-cases, inl, inr, any, ltb, bind-ok, bind-keeps, ap, ◌∙◌, expect, expect_some,
  ◌>>=◌, suc,
}
use build_o_tron.Core.Protocol.{ClientProto}
use build_o_tron.Core.Sql.{Job, PendingRun}
use build_o_tron.Core.DbCtx.Lock.{DbCtx, locked-ok}
use build_o_tron.Core.DbCtx.Jobs.{find_job, job_by_id, jobs_needing_task_runs_for_host}
use build_o_tron.Core.DbCtx.Runs.{get_pending_runs, new_run, add_run}
use build_o_tron.Core.Table.{by_id-key}
use build_o_tron.Driver.Client.{
  RunnerClient, will_accept, test_connection, accepts, Outgoing, proto, send, recv, push_out,
  next_chunk, tested,
}
use build_o_tron.Driver.Session.{Session, on_db, on_client}
use build_o_tron.Driver.FindWork.{
  Round, Work, look, find_work, first_accepted, first_rerun, sleep_and_retry, take_if, or_rerun,
  interfere, lost_if_err, deadline,
}

-- A run that a runner may be given: one that it accepts the job of.
abbrev pub Suits : RunnerClient → Work → Type 0
Suits client (run, job) = (will_accept client job ≡ true) × (job.id ≡ run.job_id)

step-Suits :
    (client : RunnerClient) (run : PendingRun) (rest : Action DbCtx (Option Work))
    (row : Option Job) (ctx : DbCtx) (work : Work)
    → ((expect_some "job exists" row >>= λ job. take_if (will_accept client job) run job rest)
        ctx).0
      ≡ ok (some work)
    → ((job : Job) × (row ≡ some job) × (will_accept client job ≡ true) × (work ≡ (run, job)))
      ⊎ ((rest ctx).0 ≡ ok (some work))
step-Suits client run rest none ctx work h = cc
step-Suits client run rest (some job) ctx work h = elim (Bool-cases (will_accept client job)) [
  | inl y ↦ let k : ok (some (run, job)) ≡ ok (some work) = rw y at h in inl (job, refl, y, cc k)
  | inr n ↦ inr (rw n at h)
]

first_accepted-Suits :
    (client : RunnerClient) (runs : List PendingRun) (ctx : DbCtx) (work : Work)
    → (first_accepted client runs ctx).0 ≡ ok (some work)
    → Suits client work
unfolding first_accepted job_by_id
first_accepted-Suits client [] ctx work h = cc
first_accepted-Suits client (run ∷ runs) ctx work h =
    let (row, e, h1) =
      bind-ok (job_by_id run.job_id)
        (λ row. expect_some "job exists" row >>= λ job.
          take_if (will_accept client job) run job (first_accepted client runs))
        ctx (some work) h in
    let (p, k, after) = locked-ok (λ db. (ok (find_job run.job_id db), db)) ctx row e in
    elim (step-Suits client run (first_accepted client runs) row (job_by_id run.job_id ctx).1 work
      h1) [
        | inl (job, f, y, w) ↦
            let found : find_job run.job_id ctx.db ≡ some job = cc (k, f) in
            rw w (y, by_id-key (λ (j : Job). j.id) run.job_id ctx.db.jobs.rows found)
        | inr r ↦ first_accepted-Suits client runs (job_by_id run.job_id ctx).1 work r
      ]

first_rerun-Suits :
    (now : ℕ) (client : RunnerClient) (jobs : List Job) (ctx : DbCtx) (work : Work)
    → (first_rerun now client jobs ctx).0 ≡ ok (some work)
    → Suits client work
unfolding first_rerun new_run add_run
first_rerun-Suits now client [] ctx work h = cc
first_rerun-Suits now client (job ∷ jobs) ctx work h = elim (Bool-cases (will_accept client job)) [
  | inr n ↦ first_rerun-Suits now client jobs ctx work (rw n at h)
  | inl y ↦ elim (Bool-cases ctx.poisoned) [
    | inl p ↦ let k : panic "PoisonError" ≡ ok (some work) = rw p at (rw y at h) in cc k
    | inr p ↦
        let k : ok
              (some (record { id = suc ctx.db.runs.seq; job_id = job.id; create_time = now }, job))
            ≡ ok (some work) =
          rw p at (rw y at h) in
        let w : work
            ≡ (record { id = suc ctx.db.runs.seq; job_id = job.id; create_time = now }, job) =
          cc k in
        rw w (y, refl)
  ]
]

or_rerun-Suits :
    (now : ℕ) (client : RunnerClient) (found : Option Work) (ctx : DbCtx) (work : Work)
    → ((w : Work) → found ≡ some w → Suits client w)
    → (or_rerun now client found ctx).0 ≡ ok (some work)
    → Suits client work
or_rerun-Suits now client (some w) ctx work s h = s work (cc h)
or_rerun-Suits now client none ctx work s h =
    let (jobs, e, h1) =
      bind-ok (expect "can query" (jobs_needing_task_runs_for_host now client.host_id))
        (first_rerun now client) ctx (some work) h in
    first_rerun-Suits now client jobs _ work h1

look-Suits :
    (now : ℕ) (client : RunnerClient) (ctx : DbCtx) (work : Work)
    → (look now client ctx).0 ≡ ok (some work)
    → Suits client work
unfolding look
look-Suits now client ctx work h =
    let (runs, e, h1) =
      bind-ok (get_pending_runs (some client.host_id))
        (λ runs. first_accepted client runs >>= or_rerun now client) ctx (some work) h in
    let (found, f, h2) =
      bind-ok (first_accepted client runs) (or_rerun now client)
        (get_pending_runs (some client.host_id) ctx).1 (some work) h1 in
    or_rerun-Suits now client found
      (first_accepted client runs (get_pending_runs (some client.host_id) ctx).1).1 work
      (λ w q.
        first_accepted-Suits client runs (get_pending_runs (some client.host_id) ctx).1 w
          (cc (f, q)))
      h2

deadline-ends :
    (secs : ℕ) (rest : Action Session (Option Work)) (s : Session)
    → (deadline secs rest s).0 ≡ ok none
    → (ltb 300 secs ≡ false) × ((rest s).0 ≡ ok none)
deadline-ends secs rest s h = elim (Bool-cases (ltb 300 secs)) [
  | inl p ↦ let k : err "5min new task deadline elapsed" ≡ ok none = rw p at h in cc k
  | inr p ↦ (p, rw p at h)
]

retry-ends :
    (round : Round) (rest : Action Session (Option Work)) (found : Option Work) (s : Session)
    → (sleep_and_retry round rest found s).0 ≡ ok none
    → (ltb 300 round.elapsed_secs ≡ false) × ((t : Session) × ((rest t).0 ≡ ok none))
retry-ends round rest (some work) s h = cc
retry-ends round rest none s h =
    let (v, f, h1) =
      bind-ok (lost_if_err (on_client test_connection)) (λ _. deadline round.elapsed_secs rest)
        (interfere round.others s).1 none h in
    let (p, k) =
      deadline-ends round.elapsed_secs rest
        (lost_if_err (on_client test_connection) (interfere round.others s).1).1 h1 in
    (p, (_, k))

-- The search does not outlive a round that ends more than 300 seconds after it began: whatever the
-- rounds after it, it has found work, failed, or panicked by then.
pub find_work-ends :
    (rounds : List Round) (s : Session)
    → any (λ (r : Round). ltb 300 r.elapsed_secs) rounds ≡ true
    → (find_work rounds s).0 ≢ ok none
unfolding find_work
find_work-ends [] s p h = cc p
find_work-ends (round ∷ rounds) s p h =
    let (found, e, h1) = bind-ok (on_db (look round.now s.client)) _ s none h in
    let (q, (t, k)) = retry-ends round (find_work rounds) found _ h1 in
    find_work-ends rounds t (rw q at p) k

sources-send :
    (m : Outgoing) (c : RunnerClient) → (send m c).1.accepted_sources ≡ c.accepted_sources
unfolding send
sources-send m c =
    elim c.tx_open as (λ x. (push_out m c x).1.accepted_sources ≡ c.accepted_sources) [
      | [] ↦ refl
      | true ∷ later ↦ refl
      | false ∷ later ↦ refl
    ]

sources-recv : (c : RunnerClient) → (recv c).1.accepted_sources ≡ c.accepted_sources
unfolding recv
sources-recv c = elim c.rx as (λ x. (next_chunk c x).1.accepted_sources ≡ c.accepted_sources) [
  | [] ↦ refl
  | x ∷ later ↦ refl
]

keeps-tested :
    (answer : Option ClientProto) (c : RunnerClient)
    → (tested answer c).1.accepted_sources ≡ c.accepted_sources
keeps-tested none c = refl
keeps-tested (some ClientProto.pong) c = refl
keeps-tested (some _) c = refl

sources-test_connection :
    (c : RunnerClient) → (test_connection c).1.accepted_sources ≡ c.accepted_sources
unfolding test_connection
sources-test_connection c =
    bind-keeps (λ (r : RunnerClient). r.accepted_sources) (send (proto ClientProto.ping))
      (λ _. recv >>= tested) c (sources-send (proto ClientProto.ping) c)
      (λ _ t.
        bind-keeps (λ (r : RunnerClient). r.accepted_sources) recv tested t (sources-recv t)
          keeps-tested)

abbrev sources : Session → Option (List String)
sources s = s.client.accepted_sources

sources-deadline :
    (secs : ℕ) (rest : Action Session (Option Work)) (s : Session) (work : Work)
    → (deadline secs rest s).0 ≡ ok (some work)
    → (rest s).0 ≡ ok (some work)
sources-deadline secs rest s work h = elim (Bool-cases (ltb 300 secs)) [
  | inl p ↦ let k : err "5min new task deadline elapsed" ≡ ok (some work) = rw p at h in cc k
  | inr p ↦ rw p at h
]

-- Either the work is what the round found, or a later round finds it for the same runner.
retry-finds :
    (round : Round) (rest : Action Session (Option Work)) (found : Option Work) (s : Session)
    (work : Work)
    → (sleep_and_retry round rest found s).0 ≡ ok (some work)
    → (found ≡ some work)
      ⊎ ((t : Session) × (sources t ≡ sources s) × ((rest t).0 ≡ ok (some work)))
retry-finds round rest (some w) s work h = inl (cc h)
retry-finds round rest none s work h =
    let (v, f, h1) =
      bind-ok (lost_if_err (on_client test_connection)) (λ _. deadline round.elapsed_secs rest)
        (interfere round.others s).1 (some work) h in
    inr (
      (lost_if_err (on_client test_connection) (interfere round.others s).1).1,
      sources-test_connection s.client,
      sources-deadline round.elapsed_secs rest
          (lost_if_err (on_client test_connection) (interfere round.others s).1).1 work h1,
    )

will_accept-sources :
    (c d : RunnerClient) (job : Job)
    → c.accepted_sources ≡ d.accepted_sources
    → will_accept c job ≡ will_accept d job
unfolding will_accept
will_accept-sources c d job e = ap (accepts job.source) e

-- Work that is found, in whatever round, is a run of a job that the runner accepts.
pub find_work-Suits :
    (rounds : List Round) (s : Session) (work : Work)
    → (find_work rounds s).0 ≡ ok (some work)
    → Suits s.client work
unfolding find_work
find_work-Suits [] s work h = cc
find_work-Suits (round ∷ rounds) s work h =
    let (found, e, h1) =
      bind-ok (on_db (look round.now s.client)) (sleep_and_retry round (find_work rounds)) s
        (some work) h in
    elim (retry-finds round (find_work rounds) found (on_db (look round.now s.client) s).1 work
      h1) [
        | inl q ↦ look-Suits round.now s.client s.ctx work (cc (e, q))
        | inr (t, q, k) ↦
            let (y, z) = find_work-Suits rounds t work k in
            (sym (will_accept-sources t.client s.client work.1 q) ∙ y, z)
      ]
