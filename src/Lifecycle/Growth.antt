-- ===== src/Lifecycle/Growth.antt =====
-- What stays in the database of the service, whatever its tasks do: what one handler found or wrote,
-- a later one finds.
use mathlib.Core.Option
use build_o_tron.Base.{
  ℕ, suc, ◌≡◌, ap, refl, ◌≤◌, [], ◌∷◌, ◌++◌, All, arith, String, false, some, List, ok, any, ◌=?◌,
}
use build_o_tron.Core.Sql.{Remote, Repo, Job}
use build_o_tron.Core.Db.{Db, CommitRow}
use build_o_tron.Core.DbCtx.Lock.{DbCtx, new}
use build_o_tron.Core.DbCtx.Commits.{update_commit_name, commit_sha}
use build_o_tron.Core.DbCtx.Jobs.Commits.{id-append}
use build_o_tron.Core.DbCtx.Remotes.{find_repo}
use build_o_tron.Native.Notifier.{Outside}
use build_o_tron.Server.Json.{get, text}
use build_o_tron.Server.PushEvent.{PushEvent, push}
use build_o_tron.Server.Webhook.{
  ok_reply, process_push_event, git_url, remote_by_git_url, short_ref_name,
}
use build_o_tron.Server.Webhook.Jobs.{
  process_push_event-new, process_push_event-known, pushed_commit, pushed_job,
}
use build_o_tron.Lifecycle.Methods.Growth.{
  Grows, Grows-same, Grows-trans, Extends, Extends-first?, run_method-Grows,
}
use build_o_tron.Core.Table.{by_id, by_id-append_new}
use build_o_tron.Core.DbCtx.Jobs.{find_job}
use build_o_tron.Lifecycle.Schema.{IsValid}
use build_o_tron.Lifecycle.System.{Task, Interleaving, Interleaving-Respects}

-- Whatever tasks do, in whatever order they take the lock, the rows of jobs, commits, their names,
-- repos, remotes and hosts stay as they are and in their order; new ones come after them.
pub Interleaving-Grows :
    {db : Db} {tasks : List Task} {later : Db} {now : List Task}
    → Interleaving db tasks later now
    → Grows db later
Interleaving-Grows i =
    Interleaving-Respects Grows Grows-same Grows-trans (λ _ m. run_method-Grows m) i

-- A row that was put in is found under its id, then and later.
lasts :
    {R : Type 0} (key : R → ℕ) (rows later : List R) (n : ℕ) (r : R)
    → All (λ s. key s ≤ n) rows
    → key r ≡ suc n
    → Extends (rows ++ (r ∷ [])) later
    → by_id key (suc n) later ≡ some r
lasts key rows later n r b e more =
    Extends-first? _ r (rows ++ (r ∷ [])) later more
      (by_id-append_new key (suc n) n rows r e (omega arith) b)

module _ (o : Outside) (config_path : String) (now : ℕ) (event : PushEvent) (ctx : DbCtx)
    (remote : Remote) (repo : Repo) (email : String) {tasks : List Task} {later : Db}
    {left : List Task} where
  -- After a push of a new commit, handled over an unpoisoned lock on a valid database, for a
  -- registered remote, a repo that is there and a pusher with an email, whatever became of its
  -- notices: at any later time its job is found under the job's id, and its commit under the
  -- commit's. Another push of the commit to the repo, by a process with an unpoisoned lock, then
  -- makes no job and no run: it only adds the name to the commit's.
  pub process_push_event-redelivered :
      (then_ms : ℕ) (again : PushEvent)
      → ctx.poisoned ≡ false
      → IsValid ctx.db
      → remote_by_git_url (git_url event.repo_name) ctx.db ≡ some remote
      → any (λ (c : CommitRow). c.sha =? event.tip) ctx.db.commits.rows ≡ false
      → find_repo remote.repo_id ctx.db ≡ some repo
      → get event.pusher "email" ≡ some (text email)
      → again.tip ≡ event.tip
      → again.repo_name ≡ event.repo_name
      → Interleaving (process_push_event o config_path now (push event) ctx).1.db tasks later left
      → let job_id = suc ctx.db.jobs.seq in
        let commit_id = suc ctx.db.commits.seq in
        (find_job job_id later ≡ some (pushed_job now remote repo email job_id commit_id))
        × ((commit_sha commit_id (new later)).0 ≡ ok event.tip)
        × (process_push_event o config_path then_ms (push again) (new later) ≡ (
          ok ok_reply,
          (update_commit_name commit_id (short_ref_name again.ref_name) (new later)).1,
        ))
  unfolding commit_sha
  process_push_event-redelivered then_ms again p (_, j, _, (k, _), _, _, _, _, _) r c f g tip name
        i =
      let job_id = suc ctx.db.jobs.seq in
      let id = suc ctx.db.commits.seq in
      let row = pushed_commit event id in
      let (jobs, _, commits, remotes) =
        process_push_event-new o config_path now event ctx remote repo email p r c f g in
      let (js, cs, _, _, rs, _) = Interleaving-Grows i in
      let still = Extends-first? _ remote _ _ rs (rw remotes r) in
      let known =
        Extends-first? (λ (q : CommitRow). q.sha =? event.tip) row _ _ cs
          (rw commits (id-append event.tip ctx.db.commits.rows id c)) in
      let made =
        lasts (λ (q : CommitRow). q.id) ctx.db.commits.rows later.commits.rows ctx.db.commits.seq
          row k.bounded refl (rw commits at cs) in
      (
        lasts (λ (q : Job). q.id) ctx.db.jobs.rows later.jobs.rows ctx.db.jobs.seq
            (pushed_job now remote repo email job_id id) j.bounded refl (rw jobs at js),
        rw made refl,
        process_push_event-known o config_path then_ms again (new later) remote id refl
            (rw name still) (rw tip (ap (Option.map (λ (q : CommitRow). q.id)) known)),
      )
