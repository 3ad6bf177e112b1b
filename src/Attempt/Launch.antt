-- ===== src/Attempt/Launch.antt =====
-- `launch_or_attach` of attempt.py.
pub mod Begin
pub mod Existing
pub mod Resolve
pub mod Locked
use hedloom.Base.{
  ℕ, String, Bool, true, false, not, Option, none, some, List, [], ◌∷◌, any, if◌then◌else◌,
}
use hedloom.Json.{
  Json, null, bool, nat, str, obj, Fields, end, field, get, get_or, put, merge, truthy, fields_of,
  items_of,
}
use hedloom.Result.{
  or_raise, unknown_standing, non_reusable_standing, borrowed_changed, terminal_without_manifest,
  attempt_cancelled, unrecoverable, transport_failed, submission_refused, submission_failed,
  assertion_failed,
}
use hedloom.Journal.Types.{
  EventName, JournalEvent, Phase, intended, submitted, TryState, is_terminal, AttemptState, current,
}
use hedloom.Journal.World.{Selection, World, Exec, pure, raise, lift, gets, modify, ◌>>=◌, ◌>>◌}
use hedloom.Journal.Store.{
  fold, append, read_manifest, read_standing, make_standing, begin_try, claim,
}
use hedloom.Transport.{
  Submission, accepted, refused, raised, Discovery, found, not_found, discovery_raised,
  substrate_of,
}
use hedloom.Reuse.{input_digest}
use hedloom.Attempt.Env.{
  Env, is_reusable, named_try, bundle_for_try, require_matching_inputs, select, existing, repair,
  call_submit,
}

pub record LaunchResult : Type 0 where
  pub disposition : String
  pub state : AttemptState
  pub manifest : Option Fields
  pub selection : Option Selection
  pub publication_errors : List String

abbrev is_created : JournalEvent → Bool
is_created e = elim e.event [ EventName.created ↦ true | _ ↦ false ]

module _ {S : Type 0} (env : Env S) where
  abbrev pub launched : String → AttemptState → Option Fields → Exec S LaunchResult
  launched disposition state manifest = gets (λ w. record {
    disposition = disposition;
    state = state;
    manifest = manifest;
    selection = w.selection;
    publication_errors = w.publication_errors;
  })

  abbrev pub borrowed_artifacts : Fields → List Json
  borrowed_artifacts doc = items_of (get "artifacts" (fields_of (get "result" doc)))

  -- `result("completed", …)`: what the result borrows must still be there.
  unfoldable pub completed : AttemptState → Fields → Exec S LaunchResult
  completed state doc = do
    there ← gets (λ w. env.borrowed_accessible (borrowed_artifacts doc) w.outside)
    if there then launched "completed" state (some doc) else raise borrowed_changed

  abbrev pub transport_args : ℕ → Fields
  transport_args n = field "try" (nat n) (
      field "transport" (str env.transport.name)
        (field "substrate" (str (substrate_of env.transport)) end))

  abbrev pub error_args : ℕ → String → Fields
  error_args n error = field "try" (nat n) (field "error" (str error) end)

  abbrev pub receipt_args : ℕ → Fields → Fields
  receipt_args n handle = field "try" (nat n) (field "handle" (obj handle) end)

  -- What follows the call of `transport.submit`, its `except` clauses included.
  unfoldable pub after_submit : ℕ → Submission → Exec S LaunchResult
  after_submit n (accepted handle) = do
    append EventName.submit_receipt (receipt_args n handle)
    state ← fold
    launched "claimed" state none
  after_submit n (refused error) = do
    append EventName.submit_refused (error_args n error)
    raise submission_refused
  after_submit n (raised error) = do
    append EventName.submit_indeterminate (error_args n error)
    raise submission_failed

  unfoldable pub record_created : ℕ → Fields → AttemptState → Exec S (Unit {0})
  record_created n bundle state =
      if any is_created state.events
      then pure tt
      else append EventName.created (
          field "try" (nat n) (
            field "operation" (get "operation" bundle)
              (field "input_digest" (str (input_digest env.hash bundle)) end)))

  unfoldable pub record_placement : ℕ → Json → Exec S (Unit {0})
  record_placement n placement =
      if truthy placement
      then append EventName.placement (merge (field "try" (nat n) end) (fields_of placement))
      else pure tt

  -- The try is begun, its evidence recorded, its intent made durable, and only then submitted.
  unfoldable pub launch_new : Fields → Option String → Exec S LaunchResult
  unfolding record_created record_placement after_submit
  launch_new bundle work_dir = do
    n ← begin_try end
    select env n "claimed" false end
    state ← fold
    record_created n bundle state
    let prepared = bundle_for_try env bundle n work_dir
    select env n "claimed" true prepared
    record_placement n (get "placement" bundle)
    append EventName.inputs_bound
        (field "try" (nat n) (field "inputs" (get_or "input_evidence" (obj end) bundle) end))
    append EventName.submit_intent (transport_args n)
    answer ← call_submit env n prepared
    after_submit n answer

  abbrev pub recovered_args : ℕ → Fields → Fields
  recovered_args n handle = put "recovered" (bool true) (receipt_args n handle)

  -- The crash window: durable intent and no receipt.
  unfoldable pub settle_intent : ℕ → Fields → Option String → Discovery → Exec S LaunchResult
  settle_intent n bundle work_dir (found handle) = do
    append EventName.submit_receipt (recovered_args n handle)
    existing env n "attached"
    state ← fold
    launched "attached" state none
  settle_intent n bundle work_dir not_found =
      if env.transport.discovery_is_authoritative
      then (append EventName.submit_lost (transport_args n) >> launch_new bundle work_dir)
      else raise unrecoverable
  settle_intent n bundle work_dir discovery_raised = raise transport_failed

  unfoldable pub call_discover : ℕ → Exec S Discovery
  call_discover n = do
    answer ← gets (λ w. (env.transport.discover (env.try_name n) w.outside).0)
    modify (λ w. record w { outside = (env.transport.discover (env.try_name n) w.outside).1 })
    pure answer

  unfoldable pub launch_phase :
      Phase → ℕ → AttemptState → Fields → Option String → Exec S LaunchResult
  launch_phase submitted n state bundle work_dir =
      existing env n "attached" >> launched "attached" state none
  launch_phase intended n state bundle work_dir =
      call_discover n >>= settle_intent n bundle work_dir
  launch_phase _ n state bundle work_dir = launch_new bundle work_dir

  -- No manifest of the current try is visible.
  unfoldable pub launch_unpublished :
      TryState → AttemptState → Fields → Option String → Exec S LaunchResult
  launch_unpublished t state bundle work_dir =
      if is_terminal t
      then raise terminal_without_manifest
      else if t.cancel_requested
      then raise attempt_cancelled
      else launch_phase t.phase t.number state bundle work_dir

  abbrev pub repaired_state : Bool → ℕ → Fields → AttemptState → Exec S AttemptState
  repaired_state true n doc state = pure state
  repaired_state false n doc state = repair env n doc >> fold

  -- A reusable result is made standing; any other is followed by a new try.
  unfoldable pub reuse_or_retry :
      TryState → Fields → AttemptState → Fields → Option String → Exec S LaunchResult
  reuse_or_retry t doc state bundle work_dir =
      if is_reusable (some t) doc
      then (do make_standing t.number; existing env t.number "completed"; completed state doc)
      else launch_new bundle work_dir

  unfoldable pub launch_published :
      TryState → Fields → AttemptState → Fields → Option String → Exec S LaunchResult
  launch_published t doc state bundle work_dir = do
    state' ← repaired_state (is_terminal t) t.number doc state
    t' ← lift (or_raise (current state') assertion_failed)
    reuse_or_retry t' doc state' bundle work_dir

  abbrev pub published_or_not :
      Option Fields → TryState → AttemptState → Fields → Option String → Exec S LaunchResult
  published_or_not none t state bundle work_dir = launch_unpublished t state bundle work_dir
  published_or_not (some doc) t state bundle work_dir = launch_published t doc state bundle work_dir

  unfoldable pub launch_current :
      Option TryState → AttemptState → Fields → Option String → Exec S LaunchResult
  launch_current none state bundle work_dir = launch_new bundle work_dir
  launch_current (some t) state bundle work_dir = do
    published ← read_manifest t.number
    published_or_not published t state bundle work_dir

  abbrev pub stand : Option TryState → ℕ → Fields → AttemptState → Exec S LaunchResult
  stand t n doc state =
      if is_reusable t doc
      then (existing env n "completed" >> completed state doc)
      else raise non_reusable_standing

  -- The record's standing result, if it is still reusable.
  unfoldable pub launch_standing : Fields → AttemptState → Exec S LaunchResult
  launch_standing doc state = do
    selected ← lift (or_raise (named_try state.tries doc) unknown_standing)
    state' ← repaired_state (is_terminal selected) selected.number doc state
    stand (named_try state'.tries doc) selected.number doc state'

  abbrev pub standing_or_current :
      Option Fields → AttemptState → Fields → Option String → Exec S LaunchResult
  standing_or_current none state bundle work_dir =
      launch_current (current state) state bundle work_dir
  standing_or_current (some doc) state bundle work_dir = launch_standing doc state

  -- `_launch_or_attach_locked`
  unfoldable pub launch_locked : Fields → Option String → Exec S LaunchResult
  launch_locked bundle work_dir = do
    modify (λ w. record w { selection = none; publication_errors = [] })
    state ← fold
    lift (require_matching_inputs env state bundle)
    standing ← read_standing
    standing_or_current standing state bundle work_dir

  -- `launch_or_attach`
  unfoldable pub launch_or_attach : Fields → Option String → Exec S LaunchResult
  launch_or_attach bundle work_dir = claim (launch_locked bundle work_dir)
