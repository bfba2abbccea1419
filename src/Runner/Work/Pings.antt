-- ===== src/Runner/Work/Pings.antt =====
-- What `wait_for_work` of ci-runner/src/main.rs makes of a conversation.
use build_o_tron.Base.{ℕ, zero, suc, ◌+◌, ◌≡◌, ap, Bool, true, List, ◌∷◌, arith}
use build_o_tron.Core.Protocol.{RequestedJob, new_task, ping}
use build_o_tron.Runner.Work.{Received, message, work, wait_for_work}

-- `n` pings, and then what follows.
abbrev pub pings : ℕ → List Received → List Received
pings zero later = later
pings (suc n) later = message ping ∷ pings n later

-- The first `n` sends arrive.
abbrev pub arrive : ℕ → List Bool → List Bool
arrive zero later = later
arrive (suc n) later = true ∷ arrive n later

-- After any number of pings, each of which it could answer, the runner takes the task that comes,
-- and it has answered each ping once.
wait_for_work-pings :
    (n pongs : ℕ) (job : RequestedJob) (later : List Received) (sends : List Bool)
    → wait_for_work (pings n (message (new_task job) ∷ later)) (arrive n sends) pongs
      ≡ (work job, n + pongs)
unfolding wait_for_work
wait_for_work-pings zero pongs job later sends = ap (λ k. (work job, k)) (omega arith)
wait_for_work-pings (suc n) pongs job later sends =
    rw (wait_for_work-pings n (suc pongs) job later sends) (ap (λ k. (work job, k)) (omega arith))
