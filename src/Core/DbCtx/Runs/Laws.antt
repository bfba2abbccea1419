-- ===== src/Core/DbCtx/Runs/Laws.antt =====
-- What `run_for_token` makes of a run's times.
use build_o_tron.Base.{ℕ, ◌+◌, ◌^◌, ◌≤◌, ◌<◌, ◌≡◌, refl, ◌↔◌, Option, none, some, arith}
use mathlib.Core.Option
use build_o_tron.Core.Sql.{TokenValidity}
use build_o_tron.Core.DbCtx.Runs.{validity, token_expiry_ms}

-- A token is valid exactly where its run was started, at a time to which the run's timeout, or half
-- an hour where it has none, can be added without falling behind the clock.
pub validity_iff :
    (now : ℕ) (started timeout : Option ℕ)
    → (validity now started timeout ≡ TokenValidity.valid)
      ↔ ((time : ℕ) × (started ≡ some time) × (now ≤ time + Option.get_or timeout token_expiry_ms))
unfolding validity
validity_iff now none timeout = (λ h. cc, λ h. ground (arith, h.1))
validity_iff now (some time) timeout =
    (λ h. (time, refl, ground arith), λ h. ground (arith, h.1, h.2))

-- The columns of SQLite hold signed 64-bit integers, so the sum that `run_for_token` forms in `u64`
-- does not overflow.
pub expiry_fits :
    (time : ℕ) (timeout : Option ℕ)
    → time < 2 ^ 63
    → Option.get_or timeout 0 < 2 ^ 63
    → time + Option.get_or timeout token_expiry_ms < 2 ^ 64
expiry_fits time none h k = omega arith
expiry_fits time (some t) h k = omega arith
