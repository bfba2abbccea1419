-- ===== src/Runner/Build.antt =====
-- `RunningJob` of ci-runner/src/main.rs: cloning, running commands, and the status that is reported
-- at the end. Processes, the file system and Lua are parameters.
pub mod Status
use Prim.Native.String.{◌++◌ as append}
use build_o_tron.Base.{
  expected, ℕ, zero, suc, String, Bool, true, false, Option, none, some, List, [], ◌∷◌, ◌++◌,
  Outcome, ok, err, panic, ◌==◌, if◌then◌else◌, join,
}
use build_o_tron.Core.Protocol.{
  ClientProto, CommandInfo, TaskInfo, RequestedJob, command, task_status,
}

-- A command as it is handed to the operating system.
pub record Command : Type 0 where
  pub program : String
  pub args : List String
  pub current_dir : Option String
  pub envs : List (String × String)

-- What became of a process: its exit code (`none` if a signal ended it), or why it did not run.
pub data Exit : Type 0 where
  exited : Option ℕ → Exit
  not_run : String → Exit

abbrev pub is_success : Option ℕ → Bool
is_success none = false
is_success (some code) = code == 0

abbrev working_dir_of : Option String → String
working_dir_of none = "tmpdir"
working_dir_of (some dir) = append "tmpdir/" dir

abbrev envs_of : Option (List (String × String)) → List (String × String)
envs_of none = []
envs_of (some env) = env

-- `prep_command`: the command, and its name for people. An empty command panics.
unfoldable pub prep_command :
    List String → Option String → Option (List (String × String)) → Outcome (Command × String)
prep_command [] dir env = panic "index out of bounds"
prep_command (program ∷ args) dir env = ok (
  record {
    program = program;
    args = args;
    current_dir = some (working_dir_of dir);
    envs = envs_of env;
  },
  join " " (program ∷ args),
)

-- What a job does that the world sees, in order: messages to the driver, artifacts that it opens, and
-- commands that it runs.
pub data Event : Type 0 where
  told : ClientProto → Event
  opened : String → String → Event
  ran : Command → Event

-- What is there of `tmpdir`, and what removing it with all it holds and making it anew give.
pub record Tmpdir : Type 0 where
  pub there : Bool
  pub removed : Outcome (Unit {0})
  pub created : Outcome (Unit {0})

-- What a job uses of the world. An artifact or a report that fails makes its caller panic, but for
-- the last report of all, which is only logged.
pub record World : Type 0 where
  pub execute : Command → Exit
  pub artifact_opens : String → Bool
  pub report_arrives : Bool
  pub tmpdir : Tmpdir

-- A job's steps add to the events; they end with a value, an `Err` or a panic.
abbrev pub Step : Type 0 → Type 0
Step A = List Event → Outcome A × List Event

infixl 10 ◌>>=◌ ◌>>◌
abbrev pub after : {A B : Type 0} → Outcome A → (A → Step B) → Step B
after (ok a) f es = f a es
after (err e) f es = (err e, es)
after (panic e) f es = (panic e, es)

abbrev pub ◌>>=◌ : {A B : Type 0} → Step A → (A → Step B) → Step B
◌>>=◌ m f es = let (r, es') = m es in after r f es'

abbrev pub ◌>>◌ : {A B : Type 0} → Step A → Step B → Step B
m >> k = m >>= λ _. k

abbrev pub done : {A : Type 0} → A → Step A
done a es = (ok a, es)

abbrev emit : Event → Step (Unit {0})
emit e es = (ok tt, es ++ (e ∷ []))

module _ (w : World) where
  -- `create_artifact(…).await.expect("works")`
  abbrev open_artifact : String → String → Step (Unit {0})
  open_artifact name desc es =
      if w.artifact_opens name then (ok tt, es ++ (opened name desc ∷ [])) else (panic "works", es)

  abbrev exit_code : String → Exit → Outcome (Option ℕ)
  exit_code name (exited code) = ok code
  exit_code name (not_run e) = err (join "" ("failed to spawn '" ∷ name ∷ "', " ∷ e ∷ []))

  -- `execute_command`
  unfoldable pub execute_command : Command → String → Step (Option ℕ)
  execute_command c name es = (exit_code name (w.execute c), es ++ (ran c ∷ []))

  -- `execute_command_and_report`: both artifacts are opened before the command runs.
  unfoldable pub execute_command_and_report : Command → String → String → Step (Option ℕ)
  unfolding execute_command
  execute_command_and_report c name desc = do
    open_artifact (append name " (stdout)") (append desc " (stdout)")
    open_artifact (append name " (stderr)") (append desc " (stderr)")
    execute_command c name

  -- `report_command_info(…).await.unwrap()`
  abbrev report_or_panic : ClientProto → Step (Unit {0})
  report_or_panic m es =
      if w.report_arrives then (ok tt, es ++ (told m ∷ [])) else (panic "send error", es)

  abbrev succeeded : String → Option ℕ → Outcome (Unit {0})
  succeeded name code = if is_success code then ok tt else err (append name " failed")

  abbrev prepared : {A : Type 0} → Outcome A → Step A
  prepared r es = (r, es)

  -- `run_command`
  unfoldable pub run_command :
      List String → Option String → Option (List (String × String)) → Step (Unit {0})
  unfolding prep_command execute_command_and_report
  run_command words dir env = do
    report_or_panic (command (CommandInfo.started words dir 1))
    (c, name) ← prepared (prep_command words dir env)
    code ← execute_command_and_report c (append name " log") name
    report_or_panic (command (CommandInfo.finished code 1))
    prepared (succeeded name code)

  abbrev git : Option String → List String → Command
  git dir args = record { program = "git"; args = args; current_dir = dir; envs = [] }

  -- A command that does not run, or fails, is an error of `clone_remote`.
  abbrev required : Step (Option ℕ) → Step (Unit {0})
  required m es =
      let (r, es') = m es in
      let result : Outcome (Unit {0}) = elim r [
        | ok code ↦ if is_success code then ok tt else err "RepoError"
        | err e ↦ err "RepoError"
        | panic e ↦ panic e
      ] in
      (result, es')

  -- `clone_remote`: clone, then check out the commit.
  unfoldable pub clone_remote : RequestedJob → Step (Unit {0})
  unfolding execute_command_and_report
  clone_remote job = do
    required (
        execute_command_and_report (git none ("clone" ∷ job.remote_url ∷ "tmpdir" ∷ []))
          "git clone log" (join " " ("git clone" ∷ job.remote_url ∷ "tmpdir" ∷ [])))
    required (
        execute_command_and_report (git (some "tmpdir") ("checkout" ∷ job.commit ∷ []))
          "git checkout log" (append "git checkout " job.commit))

-- What `std::fs::metadata("./tmpdir/goodfile")` gives.
pub data Goodfile : Type 0 where
  present missing inaccessible : Goodfile

-- The last report goes out even where it fails: that is logged only.
abbrev pub report : World → TaskInfo → Step (Unit {0})
report w info es = (ok tt, es ++ (told (task_status info) ∷ []))

-- A goodfile's run: what it did, and Lua's error if it raised one.
abbrev pub Script : Type 0
Script = Step (Unit {0})

abbrev pub ended : Outcome (Unit {0}) → Outcome TaskInfo
ended (ok u) = ok (TaskInfo.finished "pass")
ended (err e) = ok (TaskInfo.interrupted "failed" (some e))
ended (panic e) = panic e

abbrev outcome_of : Script → Step TaskInfo
outcome_of script es = let (r, es') = script es in (ended r, es')

abbrev pub choose : Goodfile → Script → Script → Step TaskInfo
choose present own default = outcome_of own
choose missing own default = outcome_of default
choose inaccessible own default =
    done (TaskInfo.interrupted "failed" (some "inaccessible goodfile"))

abbrev pub after_clone : World → Goodfile → Script → Script → Outcome (Unit {0}) → Step (Unit {0})
after_clone w g own default (ok u) es = (do info ← choose g own default; report w info) es
after_clone w g own default (err e) es = report w (TaskInfo.finished "bad_ref") es
after_clone w g own default (panic e) es = (panic e, es)

-- An empty `tmpdir` in place of the one that was there.
abbrev pub emptied : Tmpdir → Outcome (Unit {0})
emptied d = elim (if d.there then d.removed else ok tt) [
  | ok u ↦ expected "called `Result::unwrap()` on an `Err` value" d.created
  | err e ↦ panic "called `Result::unwrap()` on an `Err` value"
  | panic e ↦ panic e
]

abbrev pub built :
    World → RequestedJob → Goodfile → Script → Script → Outcome (Unit {0}) → Step (Unit {0})
built w job g own default (ok u) es =
    let (r, es') = clone_remote w job es in after_clone w g own default r es'
built w job g own default (err e) es = (err e, es)
built w job g own default (panic e) es = (panic e, es)

-- `RunningJob::run`, with the repo's own goodfile and the default one.
unfoldable pub run : World → RequestedJob → Goodfile → Script → Script → Step (Unit {0})
unfolding clone_remote
run w job g own default es =
    if w.report_arrives
    then built w job g own default (emptied w.tmpdir) (es ++ (told ClientProto.started ∷ []))
    else (panic "called `Result::unwrap()` on an `Err` value", es)
