-- ===== src/Attempt/Reconcile.antt =====
-- `reconcile`, `request_cancel` and `accept_for_reuse` of attempt.py.
pub mod Resolve
use hedloom.Base.{
  ℕ, String, Bool, true, false, not, ◌&&◌, ◌||◌, Option, none, some, List, [], ◌∷◌, find, str_eq,
  if◌then◌else◌,
}
use hedloom.Json.{
  Json, null, bool, nat, str, arr, obj, Items, nil, item, Fields, end, field, lookup, get, put,
}
use hedloom.Result.{
  guard, Error, or_raise, no_terminal_try, no_published_result, no_try_to_cancel, no_allocated_try,
  not_reconcilable, transport_failed,
}
use hedloom.Journal.Types.{
  EventName, JournalEvent, Phase, submitted, TryState, is_terminal, AttemptState, current, phase_of,
  handle_of, cancel_requested_of, cancel_reason_of, transport_of, placement_of,
}
use hedloom.Journal.World.{Selection, World, Exec, pure, raise, lift, gets, modify, ◌>>=◌, ◌>>◌}
use hedloom.Journal.Store.{fold, append, read_manifest, make_standing, publish_terminal, claim}
use hedloom.Transport.{Observed, absent, succeeded, Observation, is_conclusive, state_text}
use hedloom.Attempt.Env.{Env, Capture, captured, missing, has_outcome, is_empty, repair}

abbrev pub from_list : List Json → Items
from_list [] = nil
from_list (x ∷ xs) = item x (from_list xs)

-- The evidence that a handle leaves in a manifest.
abbrev pub handle_evidence : Fields → Fields
handle_evidence end = end
handle_evidence (field k v fs) =
    if str_eq k "job_id"
      || str_eq k "identity"
      || str_eq k "settings"
      || str_eq k "transport"
      || str_eq k "workdir"
    then field k v (handle_evidence fs)
    else handle_evidence fs

abbrev pub producer_digest : List JournalEvent → Json
producer_digest es = elim (find (λ e. elim e.event [ EventName.created ↦ true | _ ↦ false ]) es) [
  | none ↦ null
  | some e ↦ get "input_digest" e.args
]

abbrev pub with_placement : AttemptState → Fields → Fields → Fields
with_placement state handle detail =
    if is_empty (placement_of state)
    then detail
    else put "placement"
        (obj (
          put "observed"
            (obj (
              field "transport" (transport_of state)
                (field "handle" (obj (handle_evidence handle)) end)))
            (placement_of state)))
        detail

abbrev pub note_diagnostics : Option String → Fields → Fields
note_diagnostics none detail = detail
note_diagnostics (some e) detail = put "diagnostics_error" (str e) detail

abbrev pub with_artifacts : List Json → Fields → Fields
with_artifacts [] detail = detail
with_artifacts (x ∷ xs) detail = put "artifacts" (arr (from_list (x ∷ xs))) detail

module _ {S : Type 0} (env : Env S) where
  abbrev pub publish : ℕ → String → Fields → Exec S AttemptState
  publish n outcome manifest =
      publish_terminal env.identity (env.manifest_path n) n outcome manifest >> fold

  -- Work that reports success and does not keep a promise has failed.
  abbrev pub with_outputs :
      ℕ → Observed → AttemptState → Fields → Fields → Capture → Exec S AttemptState
  with_outputs n outcome state handle detail (missing error) =
      publish n "failed" (put "error" (str error) detail)
  with_outputs n outcome state handle detail (captured produced) =
      publish n (state_text outcome) (with_placement state handle (with_artifacts produced detail))

  -- What the substrate's verdict makes of the try.
  unfoldable pub conclude :
      ℕ → Json → AttemptState → Observed → Fields → Fields → Exec S AttemptState
  conclude n outputs state outcome handle observed = do
    let workdir = get "workdir" handle
    failure ← gets (λ w. (env.write_diagnostics workdir observed w.outside).0)
    modify (λ w. record w { outside = (env.write_diagnostics workdir observed w.outside).1 })
    let detail = note_diagnostics failure observed
    outputs_there ← gets (λ w. elim outcome [
      | succeeded ↦ env.capture outputs workdir detail (producer_digest state.events) w.outside
      | _ ↦ captured []
    ])
    with_outputs n outcome state handle detail outputs_there

  abbrev pub contradiction_detail : AttemptState → Fields → Fields
  contradiction_detail state observed =
      field "reason" (str "cancellation was requested but the work succeeded")
        (field "cancel_reason" (cancel_reason_of state) (field "observed" (obj observed) end))

  abbrev pub is_succeeded : Observed → Bool
  is_succeeded succeeded = true
  is_succeeded _ = false

  abbrev pub absent_detail : Fields → Fields
  absent_detail handle =
      field "reason" (str "substrate reports no such accepted work")
        (field "handle" (obj handle) end)

  -- What follows the `observed` event.
  unfoldable pub after_observation :
      ℕ → Json → AttemptState → Fields → Observation → Exec S AttemptState
  unfolding conclude
  after_observation n outputs state handle o =
      if is_conclusive o.state
      then (if cancel_requested_of state && is_succeeded o.state
          then publish n "unreconciled" (contradiction_detail state o.detail)
          else conclude n outputs state o.state handle o.detail)
      else elim o.state [ absent ↦ publish n "unreconciled" (absent_detail handle) | _ ↦ fold ]

  abbrev pub observed_args : ℕ → Observation → Fields
  observed_args n o =
      field "try" (nat n)
        (field "state" (str (state_text o.state)) (field "detail" (obj o.detail) end))

  abbrev pub call_poll : Json → Exec S (Option Observation)
  call_poll handle = do
    answer ← gets (λ w. (env.transport.poll handle w.outside).0)
    modify (λ w. record w { outside = (env.transport.poll handle w.outside).1 })
    pure answer

  abbrev pub polled : ℕ → Json → AttemptState → Fields → Option Observation → Exec S AttemptState
  polled n outputs state handle none = raise transport_failed
  polled n outputs state handle (some o) =
      append EventName.observed (observed_args n o) >> after_observation n outputs state handle o

  -- Only a submitted try whose handle is known can be asked about.
  unfoldable pub observe : ℕ → Json → AttemptState → Phase → Json → Exec S AttemptState
  unfolding after_observation
  observe n outputs state submitted (obj handle) =
      call_poll (obj handle) >>= polled n outputs state handle
  observe n outputs state _ _ = raise not_reconcilable

  abbrev pub stand_repaired : ℕ → Fields → Exec S (Unit {0})
  stand_repaired n doc =
      if has_outcome "succeeded" doc then (make_standing n >> pure tt) else pure tt

  -- A visible manifest whose terminal event was lost.
  unfoldable pub reconcile_published : TryState → Fields → Exec S AttemptState
  reconcile_published t doc =
      (if is_terminal t then pure tt else (repair env t.number doc >> stand_repaired t.number doc))
      >> fold

  abbrev pub reconcile_found : Json → AttemptState → TryState → Option Fields → Exec S AttemptState
  reconcile_found outputs state t (some doc) = reconcile_published t doc
  reconcile_found outputs state t none =
      if is_terminal t then pure state else observe t.number outputs state t.phase t.handle

  abbrev pub reconcile_current : Json → AttemptState → Option TryState → Exec S AttemptState
  reconcile_current outputs state none = raise no_allocated_try
  reconcile_current outputs state (some t) =
      read_manifest t.number >>= reconcile_found outputs state t

  -- `_reconcile_locked`
  unfoldable pub reconcile_locked : Json → Exec S AttemptState
  reconcile_locked outputs = do state ← fold; reconcile_current outputs state (current state)

  -- `reconcile`
  unfoldable pub reconcile : Json → Exec S AttemptState
  reconcile outputs = claim (reconcile_locked outputs)

  abbrev pub reason_args : ℕ → String → Fields
  reason_args n reason = field "try" (nat n) (field "reason" (str reason) end)

  abbrev pub tell_transport : Phase → Json → Exec S (Unit {0})
  tell_transport submitted null = pure tt
  tell_transport submitted handle = do
    done ← gets (λ w. (env.transport.cancel handle w.outside).0)
    modify (λ w. record w { outside = (env.transport.cancel handle w.outside).1 })
    lift (guard done transport_failed)
  tell_transport _ handle = pure tt

  -- The intent is recorded first; only then is the substrate asked to stop.
  abbrev pub cancel_current : String → Option TryState → Exec S AttemptState
  cancel_current reason none = raise no_try_to_cancel
  cancel_current reason (some t) = do
    append EventName.cancel_requested (reason_args t.number reason)
    state ← fold
    tell_transport (phase_of state) (handle_of state)
    fold

  -- `request_cancel`
  unfoldable pub request_cancel : String → Exec S AttemptState
  request_cancel reason = claim (do state ← fold; cancel_current reason (current state))

  abbrev pub accept_published : String → ℕ → Option Fields → Exec S AttemptState
  accept_published reason n none = raise no_published_result
  accept_published reason n (some doc) = do
    append EventName.reuse_accepted (
        field "try" (nat n) (field "reason" (str reason) (field "outcome" (get "outcome" doc) end)))
    make_standing n
    fold

  abbrev pub accept_current : String → Option TryState → Exec S AttemptState
  accept_current reason none = raise no_terminal_try
  accept_current reason (some t) =
      if is_terminal t
      then read_manifest t.number >>= accept_published reason t.number
      else raise no_terminal_try

  -- `accept_for_reuse`
  unfoldable pub accept_for_reuse : String → Exec S AttemptState
  accept_for_reuse reason = claim (do state ← fold; accept_current reason (current state))
