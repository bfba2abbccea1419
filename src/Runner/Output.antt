-- ===== src/Runner/Output.antt =====
-- `execute_command_capture_output` and `run_with_output` of ci-runner/src/main.rs: a command whose
-- output the goodfile reads.
pub mod Captured
use Prim.Native.String.{◌++◌ as append}
use build_o_tron.Base.{
  ℕ, String, Bool, true, false, Option, none, some, List, [], ◌∷◌, ◌++◌, Outcome, ok, err, panic,
  ◌==◌, if◌then◌else◌,
}
use build_o_tron.Native.Io.{Bytes, VecSink, new, poll_write, take_buf}
use build_o_tron.Native.Notifier.{and_then}
use build_o_tron.Runner.Build.{Command, prep_command, is_success}

-- What a process writes, by the pipe, in the order in which the two forwarding tasks get it.
pub data Written : Type 0 where
  on_stdout : Bytes → Written
  on_stderr : Bytes → Written

pub record CommandOutput : Type 0 where
  pub exit_status : Option ℕ
  pub stdout : Bytes
  pub stderr : Bytes

pub record Collectors : Type 0 where
  pub out : VecSink
  pub error_out : VecSink

-- One turn of a forwarding task.
unfoldable pub forward : Written → Collectors → Collectors
unfolding poll_write
forward (on_stdout b) c = record c { out = (poll_write b c.out).1 }
forward (on_stderr b) c = record c { error_out = (poll_write b c.error_out).1 }

unfoldable pub forward_each : List Written → Collectors → Collectors
unfolding forward
forward_each [] c = c
forward_each (w ∷ ws) c = forward_each ws (forward w c)

-- A process that was run: its exit, what the forwarding tasks had passed on when the exit was seen,
-- and what they still had to pass on. Nothing waits for these tasks.
pub record Ran : Type 0 where
  pub exit : Option ℕ
  pub before_exit : List Written
  pub after_exit : List Written

-- `execute_command_capture_output`; a process that cannot be run is an error.
unfoldable pub execute_command_capture_output : Outcome Ran → Outcome CommandOutput
unfolding forward_each new take_buf
execute_command_capture_output r = and_then r λ ran.
    let c = forward_each ran.before_exit (record { out = new; error_out = new }) in
    ok (record {
      exit_status = ran.exit;
      stdout = (take_buf c.out).0;
      stderr = (take_buf c.error_out).0;
    })

abbrev judged : String → CommandOutput → Outcome CommandOutput
judged name o = if is_success o.exit_status then ok o else err (append name " failed")

-- `run_with_output`: no report is sent, and a command that fails is an error.
unfoldable pub run_with_output :
    (Command → Outcome Ran)
    → List String
    → Option String
    → Option (List (String × String))
    → Outcome CommandOutput
unfolding prep_command execute_command_capture_output
run_with_output execute words dir env =
    and_then (prep_command words dir env) λ prepared.
      and_then (execute_command_capture_output (execute (prepared.0))) (judged prepared.1)
