-- ===== src/Server.antt =====
-- ci-web-server/src/main.rs: GitHub's webhook, and the pages for a commit, a repo and an artifact.
pub mod Json
pub mod PushEvent
pub mod Webhook
pub mod Metrics
pub mod CommitStatus
pub mod Summary
pub mod Entry
pub mod Stream
pub mod CommitPage
pub mod RepoPage
pub mod Unchanged
