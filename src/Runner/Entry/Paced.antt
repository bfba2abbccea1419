-- ===== src/Runner/Entry/Paced.antt =====
-- How often a runner of ci-runner/src/main.rs turns to the driver.
use build_o_tron.Base.{
  ℕ, suc, ◌+◌, ◌*◌, ◌≤◌, Option, none, some, List, [], ◌∷◌, Bool-cases, inl, inr, arith, length,
  contains,
}
use build_o_tron.Core.Protocol.{RequestedJob}
use build_o_tron.Runner.Work.{Found, work, hung_up, protocol_error, greeted, wait_for_work}
use build_o_tron.Runner.Entry.{Answer, unreachable, responded, Turn, after_wait, turn, run_remote}

abbrev pub and_job : Option RequestedJob → List RequestedJob → List RequestedJob
and_job none jobs = jobs
and_job (some job) jobs = job ∷ jobs

abbrev pub jobs_of : List Turn → List RequestedJob
jobs_of [] = []
jobs_of (t ∷ ts) = and_job t.ran (jobs_of ts)

abbrev pub slept : List Turn → ℕ
slept [] = 0
slept (t ∷ ts) = t.sleep_ms + slept ts

-- What one turn costs.
abbrev price : Option RequestedJob → ℕ
price none = 1000
price (some job) = 10000

abbrev cost : Turn → ℕ
cost t = price t.ran

after_wait-cost : (f : Found) → cost (after_wait f) ≤ (after_wait f).sleep_ms
after_wait-cost (work job) = omega arith
after_wait-cost hung_up = omega arith
after_wait-cost (protocol_error e) = omega arith

turn-cost : (a : Answer) → cost (turn a) ≤ (turn a).sleep_ms
unfolding turn
turn-cost (responded status hello received sends) = elim (Bool-cases (greeted status hello)) [
  | inl y ↦ rw y (after_wait-cost (wait_for_work received sends 0).0)
  | inr n ↦ rw n (omega arith)
]
turn-cost (unreachable message) = elim (Bool-cases (contains "tcp connect error" message)) [
  | inl y ↦ rw y (omega arith)
  | inr n ↦ rw n (omega arith)
]

counted :
    (ran : Option RequestedJob) (jobs : List RequestedJob) (n turns total : ℕ)
    → 1000 * turns + 9000 * length jobs ≤ total
    → price ran ≤ n
    → 1000 * suc turns + 9000 * length (and_job ran jobs) ≤ n + total
counted none jobs n turns total h c = omega (arith, h, c)
counted (some job) jobs n turns total h c = omega (arith, h, c)

-- Whatever the driver answers, a runner sleeps at least a second a turn, and ten seconds after each
-- job that it runs.
run_remote-slept :
    (answers : List Answer)
    → let turns = run_remote answers in
      1000 * length turns + 9000 * length (jobs_of turns) ≤ slept turns
unfolding run_remote
run_remote-slept [] = omega arith
run_remote-slept (a ∷ later) =
    counted (turn a).ran (jobs_of (run_remote later)) (turn a).sleep_ms (length (run_remote later))
      (slept (run_remote later)) (run_remote-slept later) (turn-cost a)
