-- ===== src/Server/Webhook/Jobs.antt =====
-- What a push does to the database (`process_push_event`, ci-web-server/src/main.rs).
use build_o_tron.Base.{
  ℕ, suc, String, ◌≡◌, refl, false, none, some, List, [], ◌∷◌, ok, Outcome-cases, inl, inr, arith,
  select, ◌==◌, any, first?, ◌=?◌, ◌++◌,
}
use build_o_tron.Core.Sql.{Remote, Repo, Job}
use build_o_tron.Core.Db.{CommitRow}
use build_o_tron.Core.DbCtx.Lock.{DbCtx}
use build_o_tron.Core.DbCtx.Commits.{commit_to_id, update_commit_name}
use build_o_tron.Core.DbCtx.Remotes.{find_repo}
use build_o_tron.Core.DbCtx.Runs.{fresh_run}
use build_o_tron.Server.Json.{get, text}
use build_o_tron.Native.Notifier.{Outside, notifiers_of}
use build_o_tron.Server.PushEvent.{PushEvent, push}
use build_o_tron.Server.Webhook.{
  ok_reply, not_found, process_push_event, git_url, remote_by_git_url, short_ref_name, start_job,
  tell_all,
}

commit_to_id-unknown :
    (sha : String) (rows : List CommitRow)
    → any (λ (c : CommitRow). c.sha =? sha) rows ≡ false
    → first? (λ (c : CommitRow). c.sha =? sha) rows ≡ none
commit_to_id-unknown sha [] e = refl
commit_to_id-unknown sha (c ∷ rows) e = ground (arith, commit_to_id-unknown sha rows)

-- The job that a push makes.
abbrev pub pushed_job : ℕ → Remote → Repo → String → ℕ → ℕ → Job
pushed_job now remote repo email id commit = record {
  id = id;
  remote_id = remote.id;
  commit_id = commit;
  created_time = now;
  source = some email;
  run_preferences = repo.default_run_preference;
}

abbrev pub pushed_commit : PushEvent → ℕ → CommitRow
pushed_commit event id = record { id = id; sha = event.tip }

module _ (o : Outside) (config_path : String) (now : ℕ) (event : PushEvent) (ctx : DbCtx) where
  -- Over an unpoisoned lock, a push to a repo that no remote has is answered by 404 and changes
  -- nothing.
  process_push_event-unregistered :
      ctx.poisoned ≡ false
      → remote_by_git_url (git_url event.repo_name) ctx.db ≡ none
      → process_push_event o config_path now (push event) ctx
        ≡ (ok not_found, record { db = ctx.db; poisoned = false })
  unfolding process_push_event
  process_push_event-unregistered p n = rw p (rw n refl)

  -- Over an unpoisoned lock, a push of a commit that is known makes no job and no run: it only adds
  -- the name to the commit's.
  pub process_push_event-known :
      (remote : Remote) (id : ℕ)
      → ctx.poisoned ≡ false
      → remote_by_git_url (git_url event.repo_name) ctx.db ≡ some remote
      → commit_to_id event.tip ctx.db ≡ some id
      → process_push_event o config_path now (push event) ctx
        ≡ (ok ok_reply, (update_commit_name id (short_ref_name event.ref_name) ctx).1)
  unfolding process_push_event update_commit_name
  process_push_event-known remote id p r c = rw p (rw r (rw c refl))

  -- Over an unpoisoned lock, a push of a commit that is not known, to a repo that a remote has and
  -- that is in the table of repos, by a pusher whose email is a string, adds the commit, one job and
  -- one pending run of it, and leaves the remotes, whatever becomes of the notices.
  pub process_push_event-new :
      (remote : Remote) (repo : Repo) (email : String)
      → ctx.poisoned ≡ false
      → remote_by_git_url (git_url event.repo_name) ctx.db ≡ some remote
      → any (λ (c : CommitRow). c.sha =? event.tip) ctx.db.commits.rows ≡ false
      → find_repo remote.repo_id ctx.db ≡ some repo
      → get event.pusher "email" ≡ some (text email)
      → let after = (process_push_event o config_path now (push event) ctx).1.db in
        (after.jobs.rows
          ≡ ctx.db.jobs.rows
            ++ (pushed_job now remote repo email (suc ctx.db.jobs.seq) (suc ctx.db.commits.seq)
                ∷ []))
        × (after.runs.rows
            ≡ ctx.db.runs.rows
              ++ (fresh_run now (suc ctx.db.jobs.seq) none (suc ctx.db.runs.seq) ∷ []))
        × (after.commits.rows
            ≡ ctx.db.commits.rows ++ (pushed_commit event (suc ctx.db.commits.seq) ∷ []))
        × (after.remotes.rows ≡ ctx.db.remotes.rows)
  unfolding process_push_event start_job
  process_push_event-new remote repo email p r c f g =
      let u = commit_to_id-unknown event.tip ctx.db.commits.rows c in
      let listed = select (λ (q : Remote). q.repo_id == remote.repo_id) ctx.db.remotes.rows in
      rw p (
        rw r (
          rw u (
            rw f (
              rw g (
                rw c (elim (Outcome-cases (notifiers_of o config_path listed)) [
                  | inr (inl (x, e)) ↦ rw e (refl, refl, refl, refl)
                  | inr (inr (x, e)) ↦ rw e (refl, refl, refl, refl)
                  | inl (ns, e) ↦ elim (Outcome-cases (tell_all o config_path event.tip ns)) [
                    | inl (v, t) ↦ rw e (rw t (refl, refl, refl, refl))
                    | inr (inl (x, t)) ↦ rw e (rw t (refl, refl, refl, refl))
                    | inr (inr (x, t)) ↦ rw e (rw t (refl, refl, refl, refl))
                  ]
                ]))))))
