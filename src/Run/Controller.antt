-- ===== src/Run/Controller.antt =====
-- One run of run/src/hedloom_run/controller.py that shares no execution with another: what `_drive`, `_save` and
-- `_block_remaining` do to a `ControlRun`. A coroutine's change of the run is one step; a turn that capacity
-- holds back is none.
pub mod Places
pub mod Reports
pub mod Dependencies
pub mod Examples
use Prim.Native.String.{◌++◌ as join}
use mathlib.Core.Option
use hedloom.Base.{
  String, Bool, true, false, not, ◌&&◌, ◌||◌, Option, none, some, List, [], ◌∷◌, ◌++◌, str_eq,
  if◌then◌else◌, all, any,
}
use hedloom.Run.Binding.{Planned}
use hedloom.Run.Worker.{Outcome, unrecorded, blocked}

-- `ControlRun`: `in_flight` is what is prepared or executed, `completed` has the last outcome first.
pub record Progress : Type 0 where
  pub remaining : List Planned
  pub in_flight : List Planned
  pub completed : List (Planned × Outcome)
  pub delivered : List String
  pub stopped : Bool

abbrev pub submitted : List Planned → Progress
submitted items = record {
  remaining = items;
  in_flight = [];
  completed = [];
  delivered = [];
  stopped = false;
}

abbrev pub is_ready : List String → Planned → Bool
is_ready delivered i = all (λ d. any (str_eq d) delivered) i.depends_on

-- The first that the test accepts, and the others.
abbrev pub take_first : (Planned → Bool) → List Planned → Option (Planned × List Planned)
take_first f [] = none
take_first f (i ∷ is) =
    let later = take_first f is in
    if f i then some (i, is) else Option.map (λ z. (z.0, i ∷ z.1)) later

-- The first of `_ready_specs`, and what remains without it.
abbrev pub take_ready : Progress → Option (Planned × List Planned)
take_ready run = take_first (is_ready run.delivered) run.remaining

-- `run.completed[v].outcome`
abbrev pub outcome_at : String → List (Planned × Outcome) → Option Outcome
outcome_at v [] = none
outcome_at v (c ∷ cs) = if str_eq c.0.invocation_id v then some c.1 else outcome_at v cs

abbrev pub is_success : Outcome → Bool
is_success o = str_eq o.outcome "succeeded"

-- What is delivered is completed, so that the outcome of a dependency is there.
abbrev pub has_succeeded : List (Planned × Outcome) → String → Bool
has_succeeded completed v = elim (outcome_at v completed) [ none ↦ false | some o ↦ is_success o ]

-- How the delivery of the outputs ends: with the text of the exception, where there is one.
pub data Delivery : Type 0 where
  passed : Delivery
  failed : String → Delivery

abbrev pub named_for : Planned → Outcome → Outcome
named_for i o = record o {
  invocation_id = i.invocation_id;
  authored_key = i.authored_key;
  operation = i.operation;
}

abbrev undelivered : Bool → Delivery → Option String
undelivered false delivery = none
undelivered true passed = none
undelivered true (failed e) = some e

abbrev failure_text : String → String
failure_text e = join "output delivery failed: " e

abbrev noted : String → Outcome → Outcome
noted e o = record o { observation_errors = o.observation_errors ++ (failure_text e ∷ []) }

abbrev pub saved : Bool → Planned → Outcome → Option String → Progress → Progress
saved stop_on_failure i o none run = record run {
  completed = (i, o) ∷ run.completed;
  delivered = i.invocation_id ∷ run.delivered;
  stopped = run.stopped || (stop_on_failure && not (is_success o));
}
saved stop_on_failure i o (some e) run = record run {
  completed = (i, noted e o) ∷ run.completed;
  stopped = true;
}

-- `_save`
abbrev pub save : Bool → Planned → Outcome → Delivery → Progress → Progress
save stop_on_failure i o delivery run =
    saved stop_on_failure i (named_for i o) (undelivered (is_success o) delivery) run

-- `_block_remaining`
abbrev pub block_remaining : Bool → List Planned → Progress → Progress
block_remaining stop_on_failure [] run = run
block_remaining stop_on_failure (i ∷ is) run =
    block_remaining stop_on_failure is (save stop_on_failure i (blocked i).outcome passed run)

abbrev pub skipped : Planned → Outcome
skipped i = (unrecorded i "skipped" "blocked" none none (some "dependency failure")).outcome

abbrev pub admit : Bool → Progress → Option (Planned × List Planned) → Progress
admit stop_on_failure run none = run
admit stop_on_failure run (some (i, rest)) =
    if all (has_succeeded run.completed) i.depends_on
    then record run { remaining = rest; in_flight = i ∷ run.in_flight }
    else save stop_on_failure i (skipped i) passed (record run { remaining = rest })

-- A turn of `_drive` for this run.
abbrev pub turn : Bool → Progress → Progress
turn stop_on_failure run =
    if run.stopped
    then block_remaining stop_on_failure run.remaining (record run { remaining = [] })
    else admit stop_on_failure run (take_ready run)

-- What was in flight ends with an outcome.
abbrev pub settle :
    Bool → Outcome → Delivery → Progress → Option (Planned × List Planned) → Progress
settle stop_on_failure o delivery run none = run
settle stop_on_failure o delivery run (some (i, rest)) =
    save stop_on_failure i o delivery (record run { in_flight = rest })

pub data Event : Type 0 where
  turned stopping : Event
  settled : String → Outcome → Delivery → Event

unfoldable pub advance : Bool → Event → Progress → Progress
advance stop_on_failure turned run = turn stop_on_failure run
advance stop_on_failure stopping run = record run { stopped = true }
advance stop_on_failure (settled v o delivery) run =
    settle stop_on_failure o delivery run (take_first (λ i. str_eq i.invocation_id v) run.in_flight)

-- The runs of these invocations.
pub data Life (stop_on_failure : Bool) (items : List Planned) : Progress → Type 0 where
  begun : Life stop_on_failure items (submitted items)
  advanced :
      {run : Progress}
      → Life stop_on_failure items run
      → (e : Event) → Life stop_on_failure items (advance stop_on_failure e run)

abbrev pub and_report : Option Outcome → Option (List Outcome) → Option (List Outcome)
and_report none os = none
and_report (some o) os = Option.map (λ z. o ∷ z) os

-- `_report`; `none` is its `KeyError`.
abbrev pub report : Progress → List Planned → Option (List Outcome)
report run [] = some []
report run (i ∷ is) = and_report (outcome_at i.invocation_id run.completed) (report run is)
