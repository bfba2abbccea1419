-- ===== src/Lifecycle/Stepwise.antt =====
-- Which handlers are programs that pause at each taking of the lock: running the program without a
-- pause is the handler.
use build_o_tron.Base.{
  ℕ, String, ◌≡◌, refl, ◌∙◌, ap, sym, Bool, true, false, Option, none, some, Outcome, ok, err,
  panic, Action, continue, ◌>>=◌, expect, expected, expect_some, if◌then◌else◌,
}
use build_o_tron.Core.Db.{Db}
use build_o_tron.Core.DbCtx.Lock.{DbCtx, locked}
use build_o_tron.Core.DbCtx.Runs.{new_run}
use build_o_tron.Lifecycle.Methods.{Method, query, queue_run, run_method}
use build_o_tron.Lifecycle.Program.{Program, ended, locks, alone, run, followed_by, run-followed_by}

abbrev pub put_back : {S P A : Type 0} → (P → DbCtx → S) → Outcome A × P × DbCtx → Outcome A × S
put_back join (r, p, ctx) = (r, join p ctx)

-- An action on a task's own state and the database, which `join` puts together, as a program.
pub record Stepwise {S P A : Type 0} (join : P → DbCtx → S) (m : Action S A) : Type 1 where
  pub program : Program P A
  pub same : (p : P) (ctx : DbCtx) → m (join p ctx) ≡ put_back join (run program p ctx)

-- What has nothing of its own.
abbrev pub on_ctx : Unit {0} → DbCtx → DbCtx
on_ctx _ ctx = ctx

pub known-Stepwise :
    {S P A : Type 0} {join : P → DbCtx → S} (r : Outcome A) → Stepwise join (λ s. (r, s))
known-Stepwise r = record { program = ended r; same = λ p ctx. refl }

pub method-Stepwise : {B : Type 0} (m : Method B) → Stepwise on_ctx (run_method m)
method-Stepwise m = record { program = locks m (λ r. ended r); same = λ p ctx. refl }

pub find-Stepwise :
    {A : Type 0} (found : Db → Outcome A) → Stepwise on_ctx (locked (λ db. (found db, db)))
unfolding run_method
find-Stepwise found = record { program = locks (query found) (λ r. ended r); same = λ p ctx. refl }

pub new_run-Stepwise :
    (now job_id : ℕ) (host : Option ℕ) → Stepwise on_ctx (new_run now job_id host)
unfolding run_method
new_run-Stepwise now job_id host = method-Stepwise (queue_run now job_id host)

-- A step of the task's own.
pub own-Stepwise :
    {S P A : Type 0} {join : P → DbCtx → S} {m : Action S A} (step : Action P A)
    → ((p : P) (ctx : DbCtx) → m (join p ctx) ≡ ((step p).0, join (step p).1 ctx))
    → Stepwise join m
own-Stepwise step h = record { program = alone step (λ r. ended r); same = h }

module _ {S P A B : Type 0} (join : P → DbCtx → S) where
  -- What is done with a result, whichever it is.
  pub try-Stepwise :
      (m : Action S A) (f : Outcome A → Action S B)
      → Stepwise join m
      → ((r : Outcome A) → Stepwise join (f r))
      → Stepwise join (λ s. f (m s).0 (m s).1)
  try-Stepwise m f h k = record {
    program = followed_by h.program (λ r. (k r).program);
    same = λ p ctx.
        let q = run h.program p ctx in
        ap (λ x. f x.0 x.1) (h.same p ctx)
        ∙ ((k q.0).same q.1 q.2
            ∙ ap (put_back join) (sym (run-followed_by h.program (λ r. (k r).program) p ctx)));
  }

  continue-Stepwise :
      (f : A → Action S B) (r : Outcome A)
      → ((a : A) → Stepwise join (f a))
      → Stepwise join (continue r f)
  continue-Stepwise f (ok a) k = k a
  continue-Stepwise f (err e) k = record { program = ended (err e); same = λ p ctx. refl }
  continue-Stepwise f (panic e) k = record { program = ended (panic e); same = λ p ctx. refl }

  pub bind-Stepwise :
      (m : Action S A) (f : A → Action S B)
      → Stepwise join m
      → ((a : A) → Stepwise join (f a))
      → Stepwise join (m >>= f)
  bind-Stepwise m f h k =
      let g = try-Stepwise m (λ r. continue r f) h (λ r. continue-Stepwise f r k) in
      record { program = g.program; same = g.same }

pub expect-Stepwise :
    {S P A : Type 0} {join : P → DbCtx → S} (msg : String) {m : Action S A}
    → Stepwise join m
    → Stepwise join (expect msg m)
expect-Stepwise {join} msg {m} h =
    let g =
      try-Stepwise join m (λ r s. (expected msg r, s)) h (λ r. known-Stepwise (expected msg r)) in
    record { program = g.program; same = g.same }

pub expect_some-Stepwise :
    {S P A : Type 0} (join : P → DbCtx → S) (msg : String) (o : Option A)
    → Stepwise join (expect_some msg o)
expect_some-Stepwise join msg none = known-Stepwise (panic msg)
expect_some-Stepwise join msg (some a) = known-Stepwise (ok a)

pub if-Stepwise :
    {S P A : Type 0} {join : P → DbCtx → S} (b : Bool) {m n : Action S A}
    → Stepwise join m
    → Stepwise join n
    → Stepwise join (if b then m else n)
if-Stepwise true h k = h
if-Stepwise false h k = k
