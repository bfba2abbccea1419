-- ===== src/Runner/Goodfile.antt =====
-- The running of a goodfile: `BuildEnv::new` and `run_build` of ci-runner/src/lua/mod.rs with `JobEnv` of
-- ci-runner/src/main.rs, and `check_output`. The Lua interpreter is a parameter.
use Prim.Native.String.{◌++◌ as append}
use build_o_tron.Base.{ℕ, String, Option, none, some, Outcome, ok, err, panic, expected}
use build_o_tron.Core.Protocol.{RequestedJob}
use build_o_tron.Native.Io.{Bytes}
use build_o_tron.Native.Notifier.{and_then}
use build_o_tron.Runner.LuaArgs.{LuaValue, collect_build_args}
use build_o_tron.Runner.Output.{Ran, run_with_output}
use build_o_tron.Runner.Build.{World, Step, ◌>>=◌, Command, Script, Goodfile, run}
use build_o_tron.Runner.Exports.{Globals, define_env}

-- The table that `check_output` gives a goodfile: the bytes, and the exit code unless a signal ended
-- the process.
pub record OutputTable : Type 0 where
  pub stdout : Bytes
  pub stderr : Bytes
  pub status : Option ℕ

abbrev in_lua : {A : Type 0} → Outcome A → Outcome A
in_lua (ok a) = ok a
in_lua (err e) = err (append "run_command error: " e)
in_lua (panic e) = panic e

-- `check_output_impl`
unfoldable pub check_output_impl :
    (Command → Outcome Ran) → LuaValue → LuaValue → Outcome OutputTable
unfolding collect_build_args run_with_output
check_output_impl execute command params = and_then (collect_build_args command params) λ called.
    and_then (in_lua (run_with_output execute called.0 (called.1).cwd (called.1).env))
      λ o. ok (record { stdout = o.stdout; stderr = o.stderr; status = o.exit_status })

-- The interpreter: a script run in an environment, with what it does on the way. A panic of its
-- thread is passed on by `join().unwrap()`.
abbrev pub Interpreter : Type 0
Interpreter = Globals → String → Script

-- `BuildEnv::new`
unfoldable pub build_env : String → RequestedJob → Outcome Globals
unfolding define_env
build_env arch job = expected "can define context" (define_env arch job.commit)

abbrev known : {A : Type 0} → Outcome A → Step A
known r es = (r, es)

-- `run_build` in the environment of `BuildEnv::new`.
unfoldable pub run_build : Interpreter → String → RequestedJob → String → Script
unfolding build_env
run_build lua arch job script = do globals ← known (build_env arch job); lua globals script

-- `JobEnv::default_goodfile`
unfoldable pub default_goodfile : Interpreter → String → RequestedJob → String → Script
unfolding run_build
default_goodfile lua arch job default = run_build lua arch job default

abbrev text_of : Option String → Outcome String
text_of none = panic "called `Result::unwrap()` on an `Err` value"
text_of (some script) = ok script

-- `JobEnv::exec_goodfile`: `read` gives a file's text. It is read once the environment is there.
unfoldable pub exec_goodfile :
    Interpreter → String → RequestedJob → (String → Option String) → Script
unfolding build_env
exec_goodfile lua arch job read = do
  globals ← known (build_env arch job)
  script ← known (text_of (read "./tmpdir/goodfile"))
  lua globals script

-- A whole job, from its start to its report, with the goodfile that is found.
unfoldable pub run_job :
    World
    → Interpreter
    → String
    → (String → Option String)
    → String
    → Goodfile
    → RequestedJob
    → Step (Unit {0})
unfolding run exec_goodfile default_goodfile
run_job w lua arch read default found job =
    run w job found (exec_goodfile lua arch job read) (default_goodfile lua arch job default)
