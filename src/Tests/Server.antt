-- ===== src/Tests/Server.antt =====
-- The theorems on ci-web-server and ci-lib-web at concrete inputs.
use build_o_tron.Base.{
  ℕ, ◌+◌, ◌≤◌, String, ◌≡◌, ◌⊎◌, ◌↔◌, ◌||◌, ◌++◌, refl, inl, inr, Bool, true, false, Option, none,
  some, List, [], ◌∷◌, Outcome, ok, err, length, IsDescending,
}
use build_o_tron.Core.Sql.{ArtifactRecord, MetricRecord}
use build_o_tron.Core.DbCtx.Runs.{fresh_run}
use build_o_tron.Base.Header.{Header}
use build_o_tron.Server.Json.{Value, Members, text, object, member, end}
use build_o_tron.Server.PushEvent.{PushEvent, push, parsed, parse_push_event}
use build_o_tron.Server.PushEvent.Shape.{IsPush, parse_push_event-IsPush}
use build_o_tron.Server.Webhook.{HookRequest, Crypto, handle_repo_event, process_push_event}
use build_o_tron.Server.Webhook.Guard.{IsSigned, handle_repo_event-IsSigned}
use build_o_tron.Server.Webhook.Jobs.{process_push_event-new, pushed_job, pushed_commit}
use build_o_tron.Server.Summary.{repo_summary, max_rows}
use build_o_tron.Server.Summary.Rows.{created, repo_summary-fits}
use build_o_tron.Tests.Data.{one_repo, one_remote, one_job, waiting_ctx, github_works}

abbrev pusher : Members
pusher = member "email" (text "me@iximeow.net") end

abbrev head : Members
head = member "id" (text "f00") end

abbrev pub push_of : String → String → PushEvent
push_of tip repo = record {
  tip = tip;
  repo_name = repo;
  head_commit = head;
  pusher = pusher;
  ref_name = "refs/heads/main";
}

abbrev push_body : Value
push_body = object (
    member "after" (text "f00") (
      member "repository" (object (member "full_name" (text "iximeow/yaxpeax-x86") end)) (
        member "head_commit" (object head)
          (member "pusher" (object pusher) (member "ref" (text "refs/heads/main") end)))))

parse_push_event-IsPush_example :
    (parse_push_event push_body ≡ parsed (push (push_of "f00" "iximeow/yaxpeax-x86")))
    ↔ IsPush push_body (push_of "f00" "iximeow/yaxpeax-x86")
parse_push_event-IsPush_example =
    parse_push_event-IsPush push_body (push_of "f00" "iximeow/yaxpeax-x86")

abbrev toy_crypto : Crypto
toy_crypto = record {
  hmac_sha256 = λ key body. length body ∷ [];
  hex_decode = λ digits. some (0 ∷ []);
}

abbrev unsigned : HookRequest
unsigned = record {
  body = 1 ∷ 2 ∷ [];
  payload = some push_body;
  signature = some (Header.text "sha256=00");
  kind = some (Header.text "push");
}

handle_repo_event-IsSigned_example :
    IsSigned toy_crypto ("key" ∷ []) unsigned
    ⊎ ((handle_repo_event toy_crypto github_works "config" ("key" ∷ []) 5000 unsigned waiting_ctx).1
        ≡ waiting_ctx)
handle_repo_event-IsSigned_example =
    handle_repo_event-IsSigned toy_crypto github_works "config" ("key" ∷ []) 5000 unsigned
      waiting_ctx

process_push_event-new_example :
    let after =
      (process_push_event github_works "config" 5000
        (push (push_of "f00" "iximeow/yaxpeax-x86"))
        waiting_ctx).1.db in
    (after.jobs.rows ≡ one_job ∷ pushed_job 5000 one_remote one_repo "me@iximeow.net" 2 2 ∷ [])
    × (after.runs.rows ≡ waiting_ctx.db.runs.rows ++ (fresh_run 5000 2 none 2 ∷ []))
    × (after.commits.rows
        ≡ waiting_ctx.db.commits.rows
          ++ (pushed_commit (push_of "f00" "iximeow/yaxpeax-x86") 2 ∷ []))
    × (after.remotes.rows ≡ one_remote ∷ [])
process_push_event-new_example =
    process_push_event-new github_works "config" 5000 (push_of "f00" "iximeow/yaxpeax-x86")
      waiting_ctx one_remote one_repo "me@iximeow.net" refl refl refl refl refl

repo_summary-fits_example : (length (one_job ∷ []) ≤ max_rows) × IsDescending created (one_job ∷ [])
unfolding repo_summary
repo_summary-fits_example =
    repo_summary-fits "yaxpeax-x86" (some 1000) waiting_ctx (one_job ∷ []) refl

abbrev one_metric : MetricRecord
one_metric = record { id = 1; run_id = 1; name = "size"; value = "42" }

abbrev artifact : ArtifactRecord
artifact = record {
  id = 1;
  run_id = 1;
  name = "log";
  desc = "the log";
  created_time = 2000;
  completed_time = some 3000;
}
