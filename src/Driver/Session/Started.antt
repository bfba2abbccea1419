-- ===== src/Driver/Session/Started.antt =====
-- What the driver records when a runner takes a run (`activate_run`, ci-driver/src/main.rs).
use build_o_tron.Base.{ℕ, String, ◌≡◌, ◌∷◌, ◌>>=◌, ◌>>◌, Action, gets}
use build_o_tron.Core.Sql.{PendingRun}
use build_o_tron.Driver.Client.{RunnerClient}
use build_o_tron.Driver.Session.{Session, submit, on_db, record_start}

-- What the driver keeps of a runner besides the streams.
abbrev identity : RunnerClient → ℕ × String
identity c = (c.host_id, c.build_token)

-- The session after a submission that ended well.
record IsSubmitted (run : PendingRun) (before after : Session) : Type 0 where
  ctx : after.ctx ≡ before.ctx
  active : after.active_tasks ≡ run.id ∷ before.active_tasks
  runner : identity after.client ≡ identity before.client

-- The end of `activate_run`.
abbrev start : ℕ → PendingRun → String → String → String → Action Session (Unit {0})
start now run url sha dir =
    submit run url sha
    >> (gets (λ s. s.client) >>= λ client.
        on_db (record_start now run.id client.host_id dir client.build_token))
