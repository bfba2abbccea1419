-- ===== src/Runner/Remote/Admitted.antt =====
-- A runner's request for an artifact, as ci-driver/src/main.rs takes it.
use mathlib.Core.Option
use build_o_tron.Base.{ℕ, ◌+◌, ◌∙◌, String, ◌≡◌, ◌≤◌, refl, false, some, ok, ltb, arith, suc}
use build_o_tron.Core.Sql.{TokenValidity}
use build_o_tron.Core.Db.{Db, RunRow}
use build_o_tron.Core.DbCtx.Lock.{DbCtx}
use build_o_tron.Core.DbCtx.Artifacts.{add_artifact}
use build_o_tron.Core.DbCtx.Runs.{update_run, set_started, token_expiry_ms, run_for_token}
use build_o_tron.Core.DbCtx.Runs.Token.{is_used, run_for_token-set_started}
use build_o_tron.Base.Header.{text}
use build_o_tron.Driver.Api.{
  ArtifactRequest, CreateNew, ok_200, handle_artifact, store_artifact, reserve_artifact,
}
use build_o_tron.Driver.Session.Recorded.{find_run}
use build_o_tron.Runner.Remote.{AsHeader, artifact_request}

abbrev pub started : ℕ → ℕ → ℕ → String → String → Db → DbCtx
started id start host_id path token db = record {
  db = update_run id (set_started start host_id path token) db;
  poisoned = false;
}

run_for_token-ctx :
    (now : ℕ) (token : String) (ctx : DbCtx)
    → ctx.poisoned ≡ false
    → (run_for_token now token ctx).1 ≡ ctx
unfolding run_for_token
run_for_token-ctx now token ctx p = rw p refl

abbrev request_of : String → String → String → ArtifactRequest
request_of name desc token = record {
  task_token = some (text token);
  artifact_name = some (text name);
  artifact_desc = some (text desc);
}

handle-found :
    (create : CreateNew) (checked now run : ℕ) (path name desc token : String) (ctx : DbCtx)
    → (run_for_token checked token ctx).0 ≡ ok (some (run, some path, TokenValidity.valid))
    → (run_for_token checked token ctx).1 ≡ ctx
    → handle_artifact create checked now (request_of name desc token) ctx
      ≡ store_artifact create now (request_of name desc token) run ctx
unfolding handle_artifact
handle-found create checked now run path name desc token ctx h k = rw h (rw k refl)

store-made :
    (create : CreateNew) (now run : ℕ) (name desc token : String) (ctx : DbCtx)
    → ctx.poisoned ≡ false
    → create run (suc ctx.db.artifacts.seq) ≡ ok tt
    → store_artifact create now (request_of name desc token) run ctx
      ≡ (ok ok_200, (add_artifact now run name desc ctx).1)
unfolding store_artifact reserve_artifact add_artifact
store-made create now run name desc token ctx p o = rw p (rw o refl)

-- Where the run's token, the name and the description are each a header's value that is read back as
-- the same text: while a run's time has not passed since it was started, a runner that has the token
-- of the run, which no run had before, makes a request that the driver answers with 200 if it can
-- open a file for the artifact, over an unpoisoned lock; and the artifact is a new row of that run,
-- not yet complete.
pub artifact_request-admitted :
    (as_header : AsHeader) (create : CreateNew) (ctx : DbCtx) (id start checked now host_id : ℕ)
    (path token name desc : String) (row : RunRow)
    → as_header token ≡ ok (text token)
    → as_header name ≡ ok (text name)
    → as_header desc ≡ ok (text desc)
    → ctx.poisoned ≡ false
    → is_used token ctx.db ≡ false
    → find_run id ctx.db ≡ some row
    → checked ≤ start + Option.get_or row.run_timeout token_expiry_ms
    → create row.id (suc ctx.db.artifacts.seq) ≡ ok tt
    → let after = started id start host_id path token ctx.db in
      (r : ArtifactRequest) × (artifact_request as_header name desc token ≡ ok r)
      × (handle_artifact create checked now r after
          ≡ (ok ok_200, (add_artifact now row.id name desc after).1))
unfolding artifact_request
artifact_request-admitted as_header create ctx id start checked now host_id path token name desc row
      a b c p u e t o =
    let n : ltb (start + Option.get_or row.run_timeout token_expiry_ms) checked ≡ false =
      ground arith in
    let k = run_for_token-set_started ctx id start checked host_id path token row p u e in
    let after = started id start host_id path token ctx.db in
    (
      request_of name desc token,
      rw a (rw b (rw c refl)),
      handle-found create checked now row.id path name desc token after (rw n at k)
            (run_for_token-ctx checked token after refl)
          ∙ store-made create now row.id name desc token after refl o,
    )
