-- ===== src/Web/Links.antt =====
-- `commit_url` and `job_url` of ci-lib-web/src/lib.rs.
use Prim.Native.String.{◌++◌ as append}
use build_o_tron.Base.{
  String, Option, none, some, Action, ◌>>=◌, pure, expect_some, ◌=?◌, if◌then◌else◌,
}
use build_o_tron.Core.Sql.{Job, Remote}
use build_o_tron.Core.DbCtx.Lock.{DbCtx}
use build_o_tron.Core.DbCtx.Remotes.{remote_by_id}

abbrev pub remote_commit_url : Remote → String → String × Option String
remote_commit_url r sha =
    if r.remote_api =? "github"
    then ("github", some (append (append r.remote_url "/commit/") sha))
    else (r.remote_api, none)

unfoldable pub commit_url : Job → String → Action DbCtx (String × Option String)
unfolding remote_by_id
commit_url job sha = do
  found ← remote_by_id job.remote_id
  remote ← expect_some "existing job references existing remote" found
  pure (remote_commit_url remote sha)

unfoldable pub job_url : Job → String → Action DbCtx String
unfolding remote_by_id
job_url job sha = do
  found ← remote_by_id job.remote_id
  remote ← expect_some "existing job references existing remote" found
  pure (append (append remote.remote_path "/") sha)
