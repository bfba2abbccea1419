-- ===== src/Lifecycle/Program.antt =====
-- A task of a process, as what it does between two takings of the lock: a program of methods of the
-- database and of steps of the task's own.
use build_o_tron.Base.{◌≡◌, refl, Outcome, Action}
use build_o_tron.Core.DbCtx.Lock.{DbCtx}
use build_o_tron.Lifecycle.Methods.{Method, run_method}

-- `P` is what the task has of its own, `A` what it ends with.
pub data Program (P A : Type 0) : Type 1 where
  ended : Outcome A → Program P A
  locks : {B : Type 0} → Method B → (Outcome B → Program P A) → Program P A
  alone : {B : Type 0} → Action P B → (Outcome B → Program P A) → Program P A

-- The program run without a pause.
abbrev pub run : {P A : Type 0} → Program P A → P → DbCtx → Outcome A × P × DbCtx
run (ended r) p ctx = (r, p, ctx)
run (locks m k) p ctx = let (r, ctx') = run_method m ctx in run (k r) p ctx'
run (alone m k) p ctx = let (r, p') = m p in run (k r) p' ctx

abbrev pub followed_by : {P A B : Type 0} → Program P A → (Outcome A → Program P B) → Program P B
followed_by (ended r) f = f r
followed_by (locks m k) f = locks m (λ r. followed_by (k r) f)
followed_by (alone m k) f = alone m (λ r. followed_by (k r) f)

pub run-followed_by :
    {P A B : Type 0} (q : Program P A) (f : Outcome A → Program P B) (p : P) (ctx : DbCtx)
    → run (followed_by q f) p ctx ≡ (let (r, p', ctx') = run q p ctx in run (f r) p' ctx')
run-followed_by (ended r) f p ctx = refl
run-followed_by (locks m k) f p ctx =
    run-followed_by (k (run_method m ctx).0) f p (run_method m ctx).1
run-followed_by (alone m k) f p ctx = run-followed_by (k (m p).0) f (m p).1 ctx

-- A program with nothing of its own, in a task that has something.
abbrev pub within : {P A : Type 0} → Program (Unit {0}) A → Program P A
within (ended r) = ended r
within (locks m k) = locks m (λ r. within (k r))
within (alone m k) = alone (λ p. ((m tt).0, p)) (λ r. within (k r))

pub run-within :
    {P A : Type 0} (q : Program (Unit {0}) A) (p : P) (ctx : DbCtx)
    → run (within q) p ctx ≡ (let (r, _, ctx') = run q tt ctx in (r, p, ctx'))
run-within (ended r) p ctx = refl
run-within (locks m k) p ctx = run-within (k (run_method m ctx).0) p (run_method m ctx).1
run-within (alone m k) p ctx = run-within (k (m tt).0) p ctx
