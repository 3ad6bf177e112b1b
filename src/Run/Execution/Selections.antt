-- ===== src/Run/Execution/Selections.antt =====
-- `ExecutionHandle.publish_selection` of run/src/hedloom_run/execution.py.
use hedloom.Base.{ℕ, String, Bool, true, false}
use hedloom.Json.{Json, nat, str, Fields, field, end}
use hedloom.Run.Execution.{Directory, Reply, returns, execution_error, type_error, Method, link}

-- The `Selection` of exec/src/hedloom_exec/attempt.py, with its record.
pub record Selection : Type 0 where
  pub record_name : String
  pub try_number : ℕ
  pub disposition : String
  pub workspace_known : Bool
  pub workspace : Json

abbrev pub common : String → String → Selection → Fields → Fields
common identifier at s rest = field "execution_id" (str identifier) (
    field "record" (str s.record_name)
      (field "try_number" (nat s.try_number) (field "at" (str at) rest)))

abbrev publish_workspace : String → String → Selection → Directory → Directory × Reply (Unit {0})
publish_workspace identifier at s d =
    let written = link d.workspace (common identifier at s (field "workspace" s.workspace end)) in
    (record d { workspace = written.0 }, written.1)

abbrev pub with_workspace :
    String → String → Selection → Bool → Directory → Directory × Reply (Unit {0})
with_workspace identifier at s false d = (d, returns tt)
with_workspace identifier at s true d = publish_workspace identifier at s d

abbrev pub after_selection :
    String → String → Selection → Directory → Reply (Unit {0}) → Directory × Reply (Unit {0})
after_selection identifier at s d (returns u) = with_workspace identifier at s s.workspace_known d
after_selection identifier at s d execution_error = (d, execution_error)
after_selection identifier at s d type_error = (d, type_error)

-- `identifier` is the handle's, and `at` the time that the clock gives.
unfoldable pub publish_selection : String → String → Selection → Method (Unit {0})
publish_selection identifier at s d =
    let written =
      link d.selection (common identifier at s (field "disposition" (str s.disposition) end)) in
    after_selection identifier at s (record d { selection = written.0 }) written.1
