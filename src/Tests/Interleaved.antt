-- ===== src/Tests/Interleaved.antt =====
-- The theorems on what later handlers find, at concrete inputs.
use build_o_tron.Base.{◌≡◌, refl, false, some, [], ok}
use build_o_tron.Core.Db.{Db, empty_db}
use build_o_tron.Core.DbCtx.Lock.{DbCtx, new}
use build_o_tron.Core.DbCtx.Commits.{update_commit_name, commit_sha}
use build_o_tron.Core.DbCtx.Jobs.{find_job}
use build_o_tron.Server.PushEvent.{PushEvent, push}
use build_o_tron.Server.Webhook.{ok_reply, process_push_event, short_ref_name}
use build_o_tron.Server.Webhook.Jobs.{pushed_job}
use build_o_tron.Core.DbCtx.Runs.Queue.{waits}
use build_o_tron.Lifecycle.Queue.{Interleaving-waits}
use build_o_tron.Lifecycle.Events.{perform}
use build_o_tron.Lifecycle.System.{handled, idle, start, next}
use build_o_tron.Lifecycle.Reachable.{Reach-IsValid}
use build_o_tron.Lifecycle.Growth.{process_push_event-redelivered}
use build_o_tron.Tests.Data.{one_repo, one_remote, github_works, started_run}
use build_o_tron.Tests.Server.{push_of}
use build_o_tron.Tests.Lifecycle.{queue_one, add_one, create_one, activate_one, after}

abbrev registered : DbCtx
registered = new (perform add_one (new empty_db))

abbrev event : PushEvent
event = push_of "f00" "iximeow/yaxpeax-x86"

-- After the push, a run is queued by hand.
abbrev later : DbCtx
later = new (
    perform queue_one
      (new (process_push_event github_works "config" 5000 (push event) registered).1.db))

-- A repo, a job of it and its run.
abbrev registered_job : Db
registered_job = after create_one (after add_one empty_db)

-- A push to a repo that was put in, a run queued by hand, and the same push again.
process_push_event-redelivered_example :
    (find_job 1 later.db ≡ some (pushed_job 5000 one_remote one_repo "me@iximeow.net" 1 1))
    × ((commit_sha 1 later).0 ≡ ok "f00")
    × (process_push_event github_works "config" 6000 (push event) later
        ≡ (ok ok_reply, (update_commit_name 1 (short_ref_name "refs/heads/main") later).1))
unfolding perform
process_push_event-redelivered_example =
    process_push_event-redelivered github_works "config" 5000 event registered one_remote one_repo
      "me@iximeow.net" 6000 event refl (Reach-IsValid (next start add_one false)) refl refl refl
      refl refl refl (handled {tasks = []} idle queue_one false).1

Interleaving-waits_example :
    waits (some 7) 1 (perform queue_one (new (after activate_one registered_job))) ≡ false
unfolding perform build_o_tron.Base.decimal
Interleaving-waits_example =
    Interleaving-waits (some 7) 1 started_run
      (next (next (next start add_one false) create_one false) activate_one false)
      (handled {tasks = []} idle queue_one false).1 refl (λ e. cc e)
