-- ===== src/Runner/Exports.antt =====
-- What a goodfile can call: `lua_exports` and `define_env` of ci-runner/src/lua/mod.rs.
pub mod Dependencies
use Prim.Native.String.{◌++◌ as append}
use build_o_tron.Base.{
  ℕ, zero, suc, String, Bool, true, false, Option, none, some, List, [], ◌∷◌, ◌++◌, Outcome, ok,
  err, panic, ◌=?◌, if◌then◌else◌, join, expected,
}
use build_o_tron.Core.Protocol.{ClientProto, metric}
use build_o_tron.Native.Io.{Bytes}
use build_o_tron.Native.Notifier.{and_then}
use build_o_tron.Runner.Steps.{StepTracker, start, push, advance}
use build_o_tron.Runner.LuaArgs.{LuaValue, RunParams, collect_build_args}
use build_o_tron.Runner.Build.{World, Step, ◌>>=◌, ◌>>◌, Event, told, opened, run_command}

-- `map_err(|e| LuaError::RuntimeError(format!(…)))`
abbrev runtime_error : {A : Type 0} → String → Outcome A → Outcome A
runtime_error what (ok a) = ok a
runtime_error what (err e) = err (append (append what " error: ") e)
runtime_error what (panic e) = panic e

abbrev known : {A : Type 0} → Outcome A → Step A
known r es = (r, es)

abbrev in_lua : {A : Type 0} → String → Step A → Step A
in_lua what m es = let (r, es') = m es in (runtime_error what r, es')

-- `build_command_impl`
unfoldable pub build_command_impl : World → LuaValue → LuaValue → Step (Unit {0})
unfolding collect_build_args run_command
build_command_impl w command params = do
  (args, ps) ← known (collect_build_args command params)
  in_lua "run_command" (run_command w args ps.cwd ps.env)

-- `has_cmd`: `which` is a parameter, which fails where it cannot be run.
unfoldable pub has_cmd : (String → Outcome Bool) → String → Outcome Bool
has_cmd which name = elim (which name) [
  | ok found ↦ ok found
  | err e ↦ err (append "could not fork which? " e)
  | panic e ↦ panic e
]

-- The loop of `check_dependencies`: the commands that are missing.
unfoldable pub missing_deps : (String → Outcome Bool) → List String → Outcome (List String)
unfolding has_cmd
missing_deps which [] = ok []
missing_deps which (c ∷ cs) =
    let rest = missing_deps which cs in
    and_then (has_cmd which c)
      λ there. and_then rest λ missing. ok (if there then missing else c ∷ missing)

abbrev pub none_missing : List String → Outcome (Unit {0})
none_missing [] = ok tt
none_missing (c ∷ cs) = err (append "missing dependencies: " (join ", " (c ∷ cs)))

-- `check_dependencies`
unfoldable pub check_dependencies : (String → Outcome Bool) → List String → Outcome (Unit {0})
unfolding missing_deps
check_dependencies which commands = and_then (missing_deps which commands) none_missing

-- `file_size`: `len` is what the file system says of a path.
unfoldable pub file_size : (String → Option ℕ) → String → Outcome ℕ
file_size stat path = elim (stat (append "tmpdir/" path)) [
  | none ↦ err (append "could not stat " path)
  | some n ↦ ok n
]

-- `lua_exports::metric`
unfoldable pub report_metric : World → String → String → Step (Unit {0})
report_metric w name value es =
    if w.report_arrives
    then (ok tt, es ++ (told (metric name value) ∷ []))
    else (err (append (append "send_metric error: failed to send metric " name) ": send error"), es)

-- A path as `Path` reads it: its last part, if that is text (`none`: it is not), and its parent.
pub record PathParts : Type 0 where
  pub file_name : Option (Option String)
  pub parent : Option String
  pub shown : String

-- The name of an artifact that is given none.
unfoldable pub default_name : PathParts → Outcome String
default_name p = elim p.file_name [
  | some name ↦ elim name [ some n ↦ ok n | none ↦ err "artifact name is not a unicode string" ]
  | none ↦ elim p.parent [
    | some dir ↦ ok dir
    | none ↦ err (append "cannot infer a default path name for " p.shown)
  ]
]

abbrev chosen_name : Option String → String → String
chosen_name none default = default
chosen_name (some name) default = name

-- The upload of `artifact`: the artifact is opened, then the file; `forwarded` is how the copy ends.
abbrev upload :
    World → (String → Bool) → (String → Outcome (Unit {0})) → PathParts → String → Step (Unit {0})
upload w file_opens forwarded p name es =
    if w.artifact_opens name
    then (let es' = es ++ (opened name (join "" (name ∷ " (from " ∷ p.shown ∷ ")" ∷ [])) ∷ []) in
        if file_opens (append "tmpdir/" p.shown)
        then (runtime_error (append "failed uploading data for " name) (forwarded name), es')
        else (panic "called `Result::unwrap()` on an `Err` value", es'))
    else (panic "called `Result::unwrap()` on an `Err` value", es)

-- `lua_exports::artifact`: the default name is worked out also where a name is given.
unfoldable pub artifact :
    World
    → (String → Bool)
    → (String → Outcome (Unit {0}))
    → PathParts
    → Option String
    → Step (Unit {0})
unfolding default_name
artifact w file_opens forwarded p name = do
  default ← known (default_name p)
  upload w file_opens forwarded p (chosen_name name default)

-- `native_rust_triple` of `define_env`, for `std::env::consts::ARCH`.
unfoldable pub native_rust_triple : String → Outcome String
native_rust_triple arch =
    if arch =? "x86_64"
    then ok "x86_64-unknown-linux-gnu"
    else if arch =? "aarch64"
    then ok "aarch64-unknown-linux-gnu"
    else panic (append "dunno native rust triple for arch " arch)

-- The functions that Lua sees, by what they do here.
pub data Export : Type 0 where
  hello run dependencies send_metric error artifact_of now_ms check_output : Export
  path_has_cmd size_of_file : Export
  step_start step_push step_advance : Export

-- The globals of `define_env`: functions, texts, and tables of these by name.
mutual
  pub data Global : Type 0 where
    function : Export → Global
    text : String → Global
    table : Globals → Global

  pub data Globals : Type 0 where
    end : Globals
    entry : String → Global → Globals → Globals

abbrev vars : String → Globals
vars triple = entry "native_rust_triple" (text triple) end

abbrev environment : String → Globals
environment triple =
    entry "has" (function Export.path_has_cmd)
      (entry "size" (function Export.size_of_file) (entry "vars" (table (vars triple)) end))

abbrev build_functions : String → String → Globals
build_functions triple sha = entry "hello" (function Export.hello) (
    entry "run" (function Export.run) (
      entry "dependencies" (function Export.dependencies) (
        entry "metric" (function Export.send_metric) (
          entry "error" (function Export.error) (
            entry "artifact" (function Export.artifact_of) (
              entry "now_ms" (function Export.now_ms) (
                entry "check_output" (function Export.check_output) (
                  entry "environment" (table (environment triple))
                    (entry "sha" (text sha) end)))))))))

abbrev step_functions : Globals
step_functions =
    entry "start" (function Export.step_start) (
      entry "push" (function Export.step_push) (entry "advance" (function Export.step_advance) end))

-- `define_env`, for a job's commit and the host's architecture.
unfoldable pub define_env : String → String → Outcome Globals
unfolding native_rust_triple
define_env arch commit = and_then (native_rust_triple arch) λ triple. ok (
    entry "Build" (table (build_functions triple commit)) (entry "Step" (table step_functions) end))
