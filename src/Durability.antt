-- ===== src/Durability.antt =====
-- `execute`: exec/src/hedloom_exec/durability.py. One invocation at its declared durability.
pub mod Ephemeral
use hedloom.Base.{ℕ, String, Option, none, some, List, [], str_eq, if◌then◌else◌}
use hedloom.Json.{Json, null, str, Fields, end, get, get_or, fields_of, items_of, is_null}
use hedloom.Result.{Result, ok, err, submission_refused, submission_failed, transport_failed}
use hedloom.Journal.Types.{
  Phase, unsubmitted, intended, submitted, AttemptState, outcome_of, phase_of,
}
use hedloom.Journal.World.{Selection, Exec, pure, ◌>>=◌}
use hedloom.Journal.Store.{read_manifest, claim}
use hedloom.Transport.{Submission, accepted, refused, raised, Observation, state_text}
use hedloom.Attempt.Env.{Env}
use hedloom.Attempt.Launch.{LaunchResult, launch_locked}
use hedloom.Attempt.Reconcile.{reconcile_locked}

pub record ExecutionResult : Type 0 where
  pub outcome : Json
  pub value : Json
  pub detail : Fields
  pub disposition : Option String
  pub artifacts : List Json
  pub try_number : Json
  pub selection : Option Selection
  pub publication_errors : List String

abbrev phase_text : Phase → String
phase_text unsubmitted = "unsubmitted"
phase_text intended = "intended"
phase_text submitted = "submitted"
phase_text Phase.terminal = "terminal"

-- `state.outcome or state.phase`
abbrev reported : AttemptState → Json
reported state =
    if is_null (outcome_of state) then str (phase_text (phase_of state)) else outcome_of state

abbrev number_json : Option ℕ → Json
number_json none = null
number_json (some n) = Json.nat n

-- A result that was there already.
abbrev from_manifest : LaunchResult → Fields → ExecutionResult
from_manifest launched manifest =
    let result = fields_of (get "result" manifest) in
    record {
      outcome = get_or "outcome" (str "unreconciled") manifest;
      value = get "value" result;
      detail = result;
      disposition = some "completed";
      artifacts = items_of (get "artifacts" result);
      try_number = get "try" manifest;
      selection = launched.selection;
      publication_errors = launched.publication_errors;
    }

abbrev from_state : LaunchResult → AttemptState → Fields → ExecutionResult
from_state launched state published =
    let result = fields_of (get "result" published) in
    record {
      outcome = reported state;
      value = get "value" result;
      detail = result;
      disposition = some launched.disposition;
      artifacts = items_of (get "artifacts" result);
      try_number = number_json state.current_try;
      selection = launched.selection;
      publication_errors = launched.publication_errors;
    }

abbrev or_empty : Option Fields → Fields
or_empty none = end
or_empty (some fs) = fs

module _ {S : Type 0} (env : Env S) where
  abbrev pub published_of : Option ℕ → Exec S (Option Fields)
  published_of none = pure none
  published_of (some n) = read_manifest n

  -- What follows a launch that did not find its result: the try is reconciled under the same claim.
  abbrev pub settle : Fields → LaunchResult → Exec S ExecutionResult
  settle bundle launched = do
    state ← reconcile_locked env (get "outputs" bundle)
    published ← published_of state.current_try
    pure (from_state launched state (or_empty published))

  abbrev pub finish : Fields → LaunchResult → Exec S ExecutionResult
  finish bundle launched =
      if str_eq launched.disposition "completed"
      then pure (from_manifest launched (or_empty launched.manifest))
      else settle bundle launched

  -- `execute` with `Durability.RECORDED`
  unfoldable pub execute_recorded : Fields → Option String → Exec S ExecutionResult
  execute_recorded bundle work_dir = claim (launch_locked env bundle work_dir >>= finish bundle)

  abbrev observed_result : Observation → ExecutionResult
  observed_result o = record {
    outcome = str (state_text o.state);
    value = get "value" o.detail;
    detail = o.detail;
    disposition = none;
    artifacts = [];
    try_number = null;
    selection = none;
    publication_errors = [];
  }

  -- `forget` is the transport's, or nothing where the transport has none.
  module _ (forget : String → S → S) (key : String) where
    abbrev ephemeral_polled : Option Observation × S → Result ExecutionResult × S
    ephemeral_polled (none, s) = (err transport_failed, s)
    ephemeral_polled (some o, s) = (ok (observed_result o), forget key s)

    abbrev pub ephemeral_submitted : Submission × S → Result ExecutionResult × S
    ephemeral_submitted (accepted handle, s) =
        ephemeral_polled (env.transport.poll (Json.obj handle) s)
    ephemeral_submitted (refused e, s) = (err submission_refused, s)
    ephemeral_submitted (raised e, s) = (err submission_failed, s)

    -- `execute` with `Durability.EPHEMERAL`: the outside world alone, under a key of this call.
    unfoldable pub execute_ephemeral : Fields → S → Result ExecutionResult × S
    execute_ephemeral bundle s = ephemeral_submitted (env.transport.submit key bundle s)
