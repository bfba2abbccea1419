-- ===== src/Runner/Build/Status.antt =====
-- What a job of ci-runner/src/main.rs reports at its end, and what the driver makes of it.
use build_o_tron.Base.{◌≡◌, ◌↔◌, Option, none, some, List, [], ◌∷◌, ◌++◌, Outcome, ok}
use mathlib.Core.Option
use build_o_tron.Core.Protocol.{TaskInfo, task_status}
use build_o_tron.Core.Sql.{RunState}
use build_o_tron.Driver.Session.{verdict}
use build_o_tron.Runner.Build.{Event, told, Goodfile, present, missing, inaccessible, Script}

-- The goodfile that is run, if there is one.
abbrev pub chosen : Goodfile → Script → Script → Option Script
chosen present own default = some own
chosen missing own default = some default
chosen inaccessible own default = none

-- The clone ended well, and so did the goodfile's run after it.
abbrev pub Passes : Goodfile → Script → Script → Outcome (Unit {0}) → List Event → Type 0
Passes g own default cloned es =
    (cloned ≡ ok tt) × ((s : Script) × (chosen g own default ≡ some s) × ((s es).0 ≡ ok tt))

-- The last event is a report, of which the driver makes `Finished` exactly where `P` holds.
abbrev pub Reports : Type 0 → List Event → Type 0
Reports P events =
    (info : TaskInfo) × (before : List Event) × (events ≡ before ++ (told (task_status info) ∷ []))
    × (((verdict info).1 ≡ RunState.finished) ↔ P)
