-- ===== src/Tests/Remote.antt =====
-- The theorems on a runner's dealings with the driver at concrete inputs.
use build_o_tron.Base.{◌≡◌, refl, arith, some, List, [], ◌∷◌, ok}
use build_o_tron.Core.Protocol.{new_task}
use build_o_tron.Core.DbCtx.Artifacts.{add_artifact}
use build_o_tron.Base.Header.{text}
use build_o_tron.Driver.Api.{ArtifactRequest, ok_200, handle_artifact}
use build_o_tron.Runner.Work.{message}
use build_o_tron.Runner.Remote.{artifact_request}
use build_o_tron.Runner.Remote.Admitted.{started, artifact_request-admitted}
use build_o_tron.Runner.Entry.{Answer, unreachable, responded}
use build_o_tron.Tests.Data.{waiting_ctx, waiting_run, request}

artifact_request-admitted_example :
    let after = started 1 2000 1 "dir" "t" waiting_ctx.db in
    (r : ArtifactRequest) × (artifact_request (λ s. ok (text s)) "log" "the log" "t" ≡ ok r)
    × (handle_artifact (λ run id. ok tt) 2500 2501 r after
        ≡ (ok ok_200, (add_artifact 2501 1 "log" "the log" after).1))
artifact_request-admitted_example =
    artifact_request-admitted (λ s. ok (text s)) (λ run id. ok tt) waiting_ctx 1 2000 2500 2501 1
      "dir" "t" "log" "the log" waiting_run refl refl refl refl refl refl (omega arith) refl

abbrev answers : List Answer
answers =
    unreachable "tcp connect error"
    ∷ responded 200 (some "hello") (message (new_task request) ∷ []) []
    ∷ []
