-- ===== src/Lib.antt =====
-- build-o-tron: a continuous integration service in Rust, modelled as functions on its database
-- and on what its processes send each other.
--
-- The program has a web server (ci-web-server) that turns GitHub's push events into commits, jobs
-- and runs; a driver (ci-driver) that hands pending runs to runners and records what they report;
-- runners (ci-runner) that clone a repository, run its goodfile and report; a tool (ci-ctl) that
-- puts repos, remotes, jobs and runs into the database by hand; and an edge service
-- (ci-wasm-frontend) that shows the same pages from a copy of the database. All share a SQLite
-- database through ci-lib-core, and the pages through ci-lib-web.
--
-- Files:
--   Base, Base/*: no code of the repository; tests on numbers, lists as SQL walks them, strings,
--     and actions (a state passed along, with a result that is a value, an Err or a panic).
--   Core/Protocol: ci-lib-core/src/protocol.rs.
--   Core/Sql, Core/Sql/Codes, Core/Db, Core/Table, Core/Table/*: ci-lib-core/src/sql.rs. A table
--     is a list of rows in rowid order with a sequence counter.
--   Core/DbCtx/*: ci-lib-core/src/dbctx.rs, one file for each kind of row; Lock is the Mutex.
--   Native/Notifier, Native/Mail: ci-lib-native/src/notifier.rs and
--     ci-lib-native/src/dbctx_ext.rs. Native/Io, Native/Io/*: ci-lib-native/src/io.rs.
--     Native/Github, Native/Github/*: ci-lib-native/src/lib.rs.
--   Driver/Client, Driver/Session, Driver/FindWork, Driver/Api, Driver/Reaper, Driver/Entry and
--     the files below them: ci-driver/src/main.rs.
--   Web/Time, Web/Links, Web/Index: ci-lib-web/src/lib.rs.
--   Server/Json, Server/PushEvent, Server/Webhook, Server/Metrics, Server/CommitStatus,
--     Server/CommitPage, Server/Summary, Server/RepoPage, Server/Stream, Server/Entry,
--     Server/Unchanged and the files below them: ci-web-server/src/main.rs.
--   Ctl, Ctl/Rerun, Ctl/Webhook: ci-ctl/src/main.rs.
--   Runner/Steps, Runner/LuaArgs, Runner/Exports, Runner/Goodfile: ci-runner/src/lua/mod.rs;
--     Runner/Build, Runner/Output, Runner/Remote, Runner/Work, Runner/HostInfo, Runner/Entry and
--     the files below them: ci-runner/src/main.rs.
--   Wasm/Pread, Wasm/Vfs, Wasm/Request and the files below them: ci-wasm-frontend/src/main.rs.
--   Lifecycle, Lifecycle/*: the service as a whole. Lifecycle says which moves the table of runs
--     may make; Lifecycle/Events has the handlers of the web server, the driver and ci-ctl,
--     Lifecycle/Program and Lifecycle/Stepwise what a handler is as a program, Lifecycle/Methods
--     and the files below it the methods and what each keeps to, Lifecycle/Schema what the
--     statements rely on in the tables, Lifecycle/System the tasks on the database that they
--     share; the others go from the handlers' pieces to the whole.
--   Tests/*: runs of the model, and the theorems at concrete inputs.
--
-- How the code is read. A method of DbCtx is an action on a record of a database and a flag for
-- the poisoned Mutex: a panic while the lock is held sets the flag, and from then on each method
-- panics. A query without order by gives rows in rowid order, and order by is stable. The clock,
-- random tokens, config files, HTTP, mail, the file system, processes, hmac, hex and what a text
-- gives as a header are parameters. An unsigned subtraction panics below zero, as in a debug
-- build, which is what the goodfile builds.
--
-- Tasks. In Lifecycle/System a handler that has begun is a task: a program (Lifecycle/Program) of
-- methods of the database, each of which takes the lock at most once (Lifecycle/Methods), and of
-- steps of the task's own. Tasks are begun at any time and step in any order, so that what other
-- tasks do may come between any two takings of the lock within one handler; a task may stop
-- anywhere. A program is taken to be a handler where running it without a pause gives what the
-- handler gives (Lifecycle/Stepwise). A request of the webhook, a round of the search for work,
-- an activation, each message of a runner, a turn of the reaper, an artifact, its end, a runner's
-- request for a job and a command of ci-ctl are such handlers. What a task has besides the
-- database when it begins, as the driver's list of active tasks, may be anything; so may, at each
-- step, whether the lock of its process is poisoned.
--
-- Bounds. No loop over rows or messages has fuel: the loops over rows, messages and remotes are
-- recursions on lists. The driver's loop for work runs over a list of the rounds to come, each
-- with its clock and with what other tasks did to the database meanwhile; the end of the list is
-- no answer of the code. The loops that take a text apart (Base/Pieces) and print a number
-- (Base/Text) have the length of the text, or the number, as fuel, which each round makes
-- smaller. Columns are natural numbers; SQLite's are signed 64-bit ones.
--
-- Not modelled: the Lua interpreter, SQLite and the edge host, the TLS servers, the main function
-- of ci-ctl, which reads configuration and opens the database; and create_tables of DbCtx: the
-- tables are there, empty, from the start, with the columns that the statements of dbctx.rs name.
-- What create_tables makes lacks runs.host_preference and has metrics.job_id in place of run_id,
-- so that new_run, PENDING_RUNS and insert_metric would fail on it; the theorems are about a
-- database on which they work.
pub mod Base
pub mod Core
pub mod Native
pub mod Driver
pub mod Web
pub mod Server
pub mod Ctl
pub mod Runner
pub mod Wasm
pub mod Lifecycle
pub mod Tests
