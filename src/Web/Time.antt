-- ===== src/Web/Time.antt =====
-- `duration_as_human_string` and `display_run_time` of ci-lib-web/src/lib.rs.
pub mod Units
use Prim.Native.String.{◌++◌ as append}
use build_o_tron.Base.{
  ℕ, ◌/◌, ◌%◌, String, Bool, true, false, Option, none, some, Outcome, ok, err, panic, ltb, ◌==◌,
  not, if◌then◌else◌, sub_u64, decimal, decimal3,
}
use build_o_tron.Core.Sql.{Run, RunState}
use build_o_tron.Native.Notifier.{and_then}

abbrev pub amount : ℕ → String → String
amount n unit = append (decimal n) unit

-- The tests, as they are written: the minutes' branch tests the minutes once more.
abbrev pub in_units : ℕ → ℕ → ℕ → ℕ → String
in_units hours min sec ms' =
    if not (hours == 0)
    then append (amount hours "h") (if not (min == 0) then amount min "m" else "")
    else if not (min == 0)
    then append (amount min "m") (if not (min == 0) then amount sec "s" else "")
    else append (append (decimal sec) (if not (ms' == 0) then append "." (decimal3 ms') else ""))
        "s"

unfoldable pub duration_as_human_string : ℕ → String
duration_as_human_string total =
    let sec = total / 1000 in
    let min = sec / 60 in
    let hours = min / 60 in in_units hours (min % 60) (sec % 60) (total % 1000)

-- `now_ms - start_time`, and " (ongoing)".
abbrev ongoing : ℕ → ℕ → Outcome String
ongoing now start =
    and_then (sub_u64 now start) (λ d. ok (append (duration_as_human_string d) " (ongoing)"))

abbrev pub is_started : RunState → Bool
is_started RunState.started = true
is_started RunState.pending = false
is_started RunState.finished = false
is_started RunState.error = false
is_started RunState.invalid = false

abbrev pub is_invalid : RunState → Bool
is_invalid RunState.invalid = true
is_invalid RunState.pending = false
is_invalid RunState.started = false
is_invalid RunState.finished = false
is_invalid RunState.error = false

abbrev shown : ℕ → RunState → Option ℕ → Option ℕ → Outcome String
shown now state none complete = ok "not yet run"
shown now state (some start) none = if is_invalid state then ok "n/a" else ongoing now start
shown now state (some start) (some complete) =
    if ltb complete start
    then if is_started state then ongoing now start else ok "invalid data"
    else and_then (sub_u64 complete start) (λ d. ok (duration_as_human_string d))

-- `display_run_time`, with the clock.
unfoldable pub display_run_time : ℕ → Run → Outcome String
unfolding duration_as_human_string
display_run_time now run = shown now run.state run.start_time run.complete_time
