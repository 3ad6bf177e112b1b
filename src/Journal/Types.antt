-- ===== src/Journal/Types.antt =====
-- What the journal holds and what folding it yields: the data types of journal.py, and the pin of
-- pins.py. A value that Python types as `Any` is a `Json`; `None` there is `null`.
use hedloom.Base.{ℕ, String, Bool, true, false, ◌||◌, Option, none, some, List, find, ◌==◌, str_eq}
use hedloom.Json.{Json, null, str, Fields, end}

-- `_EVENTS`; any other text is `unknown`.
pub data EventName : Type 0 where
  created inputs_bound try_started : EventName
  submit_intent submit_receipt submit_refused submit_indeterminate submit_lost : EventName
  cancel_requested observed terminal reuse_accepted placement : EventName
  workspace_removed pinned unpinned : EventName
  unknown : String → EventName

-- `event in _EVENTS`
abbrev pub is_known : EventName → Bool
is_known (unknown s) = false
is_known _ = true

pub record JournalEvent : Type 0 where
  pub seq : ℕ
  pub at : String
  pub event : EventName
  pub args : Fields

-- The four phases that the fold assigns.
pub data Phase : Type 0 where
  unsubmitted intended submitted terminal : Phase

abbrev pub is_terminal_phase : Phase → Bool
is_terminal_phase Phase.terminal = true
is_terminal_phase _ = false

pub record TryState : Type 0 where
  pub number : ℕ
  pub phase : Phase
  pub handle : Json
  pub transport : Json
  pub substrate : Json
  pub outcome : Json
  pub manifest_path : Json
  pub cancel_requested : Bool
  pub cancel_reason : Json
  pub reuse_accepted : Bool
  pub reuse_reason : Json
  pub placement : Fields
  pub observations : List Fields
  pub started_at : Option String
  pub ended_at : Option String

-- `TryState.is_terminal`
abbrev pub is_terminal : TryState → Bool
is_terminal t = is_terminal_phase t.phase

pub record FrozenFile : Type 0 where
  pub relpath : Json
  pub size : Json
  pub modified_ns : Json
  pub digest : Json

pub record Pin : Type 0 where
  pub pin_id : String
  pub try_number : ℕ
  pub workspace : Json
  pub contents : List FrozenFile
  pub reason : Json
  pub actor : Json
  pub at : String
  pub layout : Json
  pub froze : Bool
  pub released_at : Option String
  pub released_by : Json
  pub released_reason : Json

-- `Pin.is_active`
abbrev pub is_active : Pin → Bool
is_active p = elim p.released_at [ none ↦ true | some t ↦ false ]

pub record AttemptState : Type 0 where
  pub tries : List TryState
  pub current_try : Option ℕ
  pub pins : List Pin
  pub events : List JournalEvent

-- `next((item for item in tries if item.number == number), None)`
abbrev pub try_at : ℕ → List TryState → Option TryState
try_at n = find (λ t. t.number == n)

-- The properties of `AttemptState`, which read the current try.
abbrev pub current : AttemptState → Option TryState
current s = elim s.current_try [ none ↦ none | some n ↦ try_at n s.tries ]

abbrev pub phase_of : AttemptState → Phase
phase_of s = elim (current s) [ none ↦ unsubmitted | some t ↦ t.phase ]

abbrev pub handle_of : AttemptState → Json
handle_of s = elim (current s) [ none ↦ null | some t ↦ t.handle ]

abbrev pub transport_of : AttemptState → Json
transport_of s = elim (current s) [ none ↦ null | some t ↦ t.transport ]

abbrev pub outcome_of : AttemptState → Json
outcome_of s = elim (current s) [ none ↦ null | some t ↦ t.outcome ]

abbrev pub cancel_requested_of : AttemptState → Bool
cancel_requested_of s = elim (current s) [ none ↦ false | some t ↦ t.cancel_requested ]

abbrev pub cancel_reason_of : AttemptState → Json
cancel_reason_of s = elim (current s) [ none ↦ null | some t ↦ t.cancel_reason ]

abbrev pub placement_of : AttemptState → Fields
placement_of s = elim (current s) [ none ↦ end | some t ↦ t.placement ]

-- `outcome in TERMINAL_OUTCOMES`, of a text and of any value
abbrev pub is_outcome : String → Bool
is_outcome s =
    str_eq s "succeeded" || str_eq s "failed" || str_eq s "cancelled" || str_eq s "unreconciled"

abbrev pub is_outcome_value : Json → Bool
is_outcome_value (str s) = is_outcome s
is_outcome_value _ = false
