-- ===== src/Transport.antt =====
-- The transport boundary: exec/src/hedloom_exec/transport.py. A transport is a parameter of the
-- protocol; the in-process one of the source is an instance, in the child module.
pub mod InProcess
use hedloom.Base.{ℕ, String, Bool, true, false, ◌||◌, Option, none, some, str_eq, if◌then◌else◌}
use hedloom.Json.{Json, Fields}

-- `_OBSERVED_STATES`
pub data Observed : Type 0 where
  absent pending running succeeded failed cancelled : Observed

pub record Observation : Type 0 where
  pub state : Observed
  pub detail : Fields

-- `Observation.is_terminal`
abbrev pub is_conclusive : Observed → Bool
is_conclusive succeeded = true
is_conclusive failed = true
is_conclusive cancelled = true
is_conclusive _ = false

abbrev pub state_text : Observed → String
state_text absent = "absent"
state_text pending = "pending"
state_text running = "running"
state_text succeeded = "succeeded"
state_text failed = "failed"
state_text cancelled = "cancelled"

-- How `submit` ends: a handle, `SubmissionRefused`, or any other exception.
pub data Submission : Type 0 where
  accepted : Fields → Submission
  refused : String → Submission
  raised : String → Submission

-- How `discover` ends: a handle, `None`, or an exception.
pub data Discovery : Type 0 where
  found : Fields → Discovery
  not_found : Discovery
  discovery_raised : Discovery

-- One substrate, and what else the protocol asks of the outside world, whose state is `S`.
pub record Transport (S : Type 0) : Type 0 where
  pub name : String
  -- the empty text where the transport declares no substrate
  pub substrate : String
  pub discovery_is_authoritative : Bool
  pub submit : String → Fields → S → Submission × S
  pub discover : String → S → Discovery × S
  -- `none`: the call raised
  pub poll : Json → S → Option Observation × S
  -- `false`: the call raised
  pub cancel : Json → S → Bool × S

-- `substrate_of`
abbrev pub substrate_of : {S : Type 0} → Transport S → String
substrate_of t = if str_eq t.substrate "" then t.name else t.substrate
