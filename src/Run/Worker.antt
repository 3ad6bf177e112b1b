-- ===== src/Run/Worker.antt =====
-- `_run_handle` of run/src/hedloom_run/graph.py, which a worker calls for a ready invocation, with the outcomes
-- of run/src/hedloom_run/driver.py.
pub mod Dispatch
pub mod Examples
use Prim.Native.String.{◌++◌ as join}
use hedloom.Base.{ℕ, String, Bool, true, false, Option, none, some, List, [], ◌∷◌, ◌++◌}
use hedloom.Json.{Json, Fields, null, end}
use hedloom.Run.Execution.{Directory, Reply, returns, execution_error, type_error, enter, finish}
use hedloom.Run.Execution.Gate.{Call, perform_all}
use hedloom.Run.Binding.{Planned, Produced}
use hedloom.Run.Placement.{placement_of}

-- `InvocationOutcome`
pub record Outcome : Type 0 where
  pub invocation_id : String
  pub authored_key : Option String
  pub operation : String
  pub input_digest : String
  pub disposition : String
  pub outcome : String
  pub placement : Option String
  pub value : Json
  pub artifacts : Fields
  pub record_name : Option String
  pub try_number : Option ℕ
  pub error : Option String
  pub observation_errors : List String
  pub block_reason : Option String

-- `_Step`
pub record Step : Type 0 where
  pub outcome : Outcome
  pub produced : Produced

-- An outcome without a record, which contributes nothing.
abbrev pub unrecorded :
    Planned → String → String → Option String → Option String → Option String → Step
unrecorded i disposition outcome placement error block_reason = record {
  outcome = record {
    invocation_id = i.invocation_id;
    authored_key = i.authored_key;
    operation = i.operation;
    input_digest = i.input_digest;
    disposition = disposition;
    outcome = outcome;
    placement = placement;
    value = null;
    artifacts = end;
    record_name = none;
    try_number = none;
    error = error;
    observation_errors = [];
    block_reason = block_reason;
  };
  produced = record { sources = []; ports = [] };
}

-- `_blocked`
abbrev pub blocked : Planned → Step
blocked i = unrecorded i "skipped" "blocked" none none (some "stopped before admission")

-- `_abnormal`, of the text of the exception
abbrev pub abnormal : Planned → String → Step
abnormal i error = unrecorded i "refused" "failed" (some (placement_of i)) (some error) none

pub data Ending : Type 0 where
  stepped : Step → Ending
  raised : String → Ending

-- What happens between entry and completion: the calls of the reference, by the work and by others, and how
-- the work ends.
pub record Work : Type 0 where
  pub calls : List Call
  pub ending : Ending

-- What a worker leaves: the directory, how `_run_handle` ends, and whether the work was done.
pub record Report : Type 0 where
  pub directory : Directory
  pub ending : Ending
  pub executed : Bool

abbrev accounting_text : String → String
accounting_text message = join "execution accounting failed: " message

-- A failure of `finish` is noted in the outcome.
abbrev pub accounted : String → Step → Step
accounted error s = record s {
  outcome = record s.outcome { observation_errors = s.outcome.observation_errors ++ (error ∷ []) };
}

abbrev pub with_accounting : String → Reply (Unit {0}) → Step → Step
with_accounting message (returns u) s = s
with_accounting message execution_error s = accounted message s
with_accounting message type_error s = accounted message s

-- An exception of the work goes on, whatever `finish` does.
abbrev pub ended : String → Reply (Unit {0}) → Ending → Ending
ended message r (stepped s) = stepped (with_accounting message r s)
ended message r (raised e) = raised e

-- `message` gives the text of the exception that `finish` of a directory raises.
abbrev pub close : (Directory → String) → Ending → Directory → Report
close message e d = record {
  directory = (finish d).0;
  ending = ended (message d) (finish d).1 e;
  executed = true;
}

abbrev pub after_entry :
    (Directory → String) → String → Planned → Work → Directory → Reply Bool → Report
after_entry message identifier i work d (returns false) = record {
  directory = d;
  ending = stepped (blocked i);
  executed = false;
}
after_entry message identifier i work d (returns true) =
    close message work.ending (perform_all identifier work.calls d)
after_entry message identifier i work d execution_error = record {
  directory = d;
  ending = raised "ExecutionError";
  executed = false;
}
after_entry message identifier i work d type_error = record {
  directory = d;
  ending = raised "TypeError";
  executed = false;
}

-- `_run_handle`; `work` stands for `_run_one` and for what others call meanwhile.
unfoldable pub run_handle : (Directory → String) → String → Planned → Work → Directory → Report
run_handle message identifier i work d =
    after_entry message identifier i work (enter d).0 (enter d).1
