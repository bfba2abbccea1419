-- ===== src/Server/CommitStatus/Sought.antt =====
-- Which commit `handle_commit_status` of ci-web-server/src/main.rs shows for a path.
use Prim.Native.String.{◌++◌ as append, len}
use build_o_tron.Base.{
  ◌≤◌, String, ◌≡◌, ◌≢◌, ◌∙◌, sym, ap, Bool, true, false, Option, none, some, List, [], ◌∷◌,
  Outcome, ok, err, panic, inl, inr, Bool-cases, Option-cases, bind-ok, first?, ltb, arith, expect,
  expect_some, ◌=?◌,
}
use build_o_tron.Base.Like.{codes, IsPlain, begins_with, like, like-begins_with}
use build_o_tron.Core.Sql.{Remote}
use build_o_tron.Core.Db.{CommitRow}
use build_o_tron.Core.DbCtx.Lock.{DbCtx, locked, locked-ok}
use build_o_tron.Core.DbCtx.Commits.{nice_name_for_commit}
use build_o_tron.Core.DbCtx.Jobs.{job_by_commit_id}
use build_o_tron.Core.DbCtx.Runs.{last_run_for_job}
use build_o_tron.Web.Index.{now_shown, short_sha}
use build_o_tron.Server.CommitStatus.{
  CommitPage, Lookup, no_remote, no_commit, found, page_of_commit, page_of_remote, commit_by_prefix,
  commit_page,
}

first?-holds : {A : Type 0} (p : A → Bool) (xs : List A) (x : A) → first? p xs ≡ some x → p x ≡ true
first?-holds p [] x h = cc h
first?-holds p (y ∷ ys) x h = elim (Bool-cases (p y)) [
  | inl t ↦ let k : some y ≡ some x = rw t at h in let z : y ≡ x = cc k in rw (← z) t
  | inr f ↦ first?-holds p ys x (rw f at h)
]

abbrev sha_of : Outcome Lookup → String
sha_of (ok (found p)) = p.sha
sha_of (ok other) = ""
sha_of (err e) = ""
sha_of (panic e) = ""

page_of_commit-sha :
    (remote : Remote) (c : CommitRow) (ctx : DbCtx) (p : CommitPage)
    → (page_of_commit remote (some c) ctx).0 ≡ ok (found p)
    → p.sha ≡ c.sha
page_of_commit-sha remote c ctx p h =
    let (name, e1, h1) =
      bind-ok (expect "can query" (nice_name_for_commit c.id)) _ ctx (found p) h in
    let (short, e2, h2) = bind-ok (now_shown (short_sha c.sha)) _ _ (found p) h1 in
    let (row, e3, h3) = bind-ok (expect "can query" (job_by_commit_id c.id)) _ _ (found p) h2 in
    let (job, e4, h4) = bind-ok (expect_some "job exists" row) _ _ (found p) h3 in
    let (last, e5, h5) = bind-ok (expect "can query" (last_run_for_job job.id)) _ _ (found p) h4 in
    let (run, e6, h6) = bind-ok (expect_some "run exists" last) _ _ (found p) h5 in
    sym (ap sha_of h6)

abbrev is_found : Outcome Lookup → Bool
is_found (ok (found p)) = true
is_found (ok other) = false
is_found (err e) = false
is_found (panic e) = false

no_remote-ne-found : (p : CommitPage) → ok no_remote ≢ ok (found p)
no_remote-ne-found p h = let k : false ≡ true = ap is_found h in cc k

no_commit-ne-found : (p : CommitPage) → ok no_commit ≢ ok (found p)
no_commit-ne-found p h = let k : false ≡ true = ap is_found h in cc k

abbrev option_of : Outcome (Option CommitRow) → Option CommitRow
option_of (ok o) = o
option_of (err e) = none
option_of (panic e) = none

page_of_remote-sought :
    (sha : String) (remote : Option Remote) (ctx : DbCtx) (p : CommitPage)
    → IsPlain (codes sha)
    → (page_of_remote sha remote ctx).0 ≡ ok (found p)
    → (7 ≤ len sha) × (begins_with (codes sha) (codes p.sha) ≡ true)
page_of_remote-sought sha none ctx p w h = absurd (no_remote-ne-found p h)
page_of_remote-sought sha (some remote) ctx p w h = elim (Bool-cases (ltb (len sha) 7)) [
  | inl short ↦ absurd (no_commit-ne-found p (rw short at h))
  | inr long ↦
      let k = rw long at h in
      let (commit, e, h1) =
        bind-ok (locked (λ db. (ok (commit_by_prefix sha db), db))) (page_of_commit remote) ctx
          (found p) k in
      let (q, e2, after) = locked-ok (λ db. (ok (commit_by_prefix sha db), db)) ctx commit e in
      elim (Option-cases commit) [
        | inl n ↦ absurd (no_commit-ne-found p (rw n at h1))
        | inr (c, f) ↦
            let same : p.sha ≡ c.sha = page_of_commit-sha remote c _ p (rw f at h1) in
            let found_c : commit_by_prefix sha ctx.db ≡ some c = ap option_of e2 ∙ f in
            let like_c : like (append sha "%") c.sha ≡ true =
              first?-holds (λ (r : CommitRow). like (append sha "%") r.sha) ctx.db.commits.rows c
                found_c in
            (
              ground (arith, long),
              ap (λ t. begins_with (codes sha) (codes t)) same
                  ∙ (sym (like-begins_with sha c.sha w) ∙ like_c),
            )
      ]
]

-- The commit that is shown for a path has a sha that begins with the one asked for, in either case of
-- its letters, if that has none of the characters `%` and `_`; and seven bytes of it are asked for.
pub commit_page-sought :
    (owner repo sha : String) (ctx : DbCtx) (p : CommitPage)
    → IsPlain (codes sha)
    → (commit_page owner repo sha ctx).0 ≡ ok (found p)
    → (7 ≤ len sha) × (begins_with (codes sha) (codes p.sha) ≡ true)
unfolding commit_page
commit_page-sought owner repo sha ctx p w h =
    let (remote, e, h1) =
      bind-ok
        (locked (λ db. (
          ok (
              first? (λ (r : Remote). r.remote_path =? append (append owner "/") repo)
                db.remotes.rows),
          db,
        )))
        (page_of_remote sha) ctx (found p) h in
    page_of_remote-sought sha remote _ p w h1
