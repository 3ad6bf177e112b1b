-- ===== src/Pins.antt =====
-- Pins: exec/src/hedloom_exec/pins.py. `pin` promises that a terminal try's workspace stays, and
-- `unpin` takes the promise back; both work under the record's claim.
pub mod Warrant
use hedloom.Base.{
  ℕ, String, Bool, true, false, not, ◌&&◌, Option, none, some, List, [], ◌∷◌, any, find, keep,
  is_some, ◌==◌, str_eq, if◌then◌else◌,
}
use hedloom.Json.{
  Json, bool, nat, str, Items, arr, obj, Fields, end, field, get, or_else, fields_of,
}
use hedloom.Result.{
  Result, ok, err, ◌>>=?◌, guard, or_raise, pin_reason, pin_actor, not_terminal, already_pinned,
  workspace_was_removed, no_workspace, no_active_pin, thaw_incomplete, no_such_try,
}
use hedloom.Journal.Types.{
  EventName, JournalEvent, TryState, is_terminal, Pin, is_active, AttemptState, try_at,
}
use hedloom.Journal.World.{World, Exec, pure, lift, gets, modify, ◌>>=◌, ◌>>◌}
use hedloom.Journal.Disk.{layout_version}
use hedloom.Journal.Store.{append, fold, claim}

-- The outside world of the pins: the login name, `not value.strip()`, the workspaces (their paths, whether
-- one is a directory and no link, their inventories and modes), `chmod`, and `uuid4`.
pub record PinSite (S : Type 0) : Type 0 where
  pub user : String
  pub blank : String → Bool
  pub path : ℕ → String
  pub there : String → S → Bool
  pub inventory : String → S → Items
  pub modes : String → S → Fields
  pub freeze : String → Fields → S → Bool × S
  pub thaw : Json → Fields → S → Bool × S
  pub fresh_id : S → String

abbrev for_try : Option ℕ → Pin → Bool
for_try none p = true
for_try (some n) p = p.try_number == n

-- `pins_of`
unfoldable pub pins_of : AttemptState → Option ℕ → Bool → List Pin
pins_of state n active_only =
    keep (λ p. for_try n p && (if active_only then is_active p else true)) state.pins

abbrev not_empty : List Pin → Bool
not_empty [] = false
not_empty (p ∷ ps) = true

-- `is_pinned`
unfoldable pub is_pinned : AttemptState → ℕ → Bool
unfolding pins_of
is_pinned state n = not_empty (pins_of state (some n) true)

abbrev pub ended : Option TryState → Bool
ended none = false
ended (some t) = is_terminal t

abbrev pub removes : ℕ → JournalEvent → Bool
removes n e = elim e.event [
  | EventName.workspace_removed ↦ elim (get "try" e.args) [ nat m ↦ m == n | _ ↦ false ]
  | _ ↦ false
]

abbrev id_is : String → Json → Bool
id_is pin_id (str s) = str_eq s pin_id
id_is pin_id _ = false

abbrev pins_event : String → JournalEvent → Bool
pins_event pin_id e = elim e.event [
  | EventName.pinned ↦ id_is pin_id (get "pin_id" e.args)
  | _ ↦ false
]

module _ {S : Type 0} (site : PinSite S) where
  -- `_actor` and `_reason`
  abbrev actor_of : Option String → Result String
  actor_of given =
      let selected : String = elim given [ none ↦ site.user | some a ↦ a ] in
      if site.blank selected then err pin_actor else ok selected

  abbrev reason_of : String → Result String
  reason_of reason = if site.blank reason then err pin_reason else ok reason

  -- What must hold of the record before a pin is made.
  unfoldable pub pinnable : AttemptState → ℕ → Result (Unit {0})
  unfolding is_pinned
  pinnable state n = guard (ended (try_at n state.tries)) not_terminal >>=? λ _.
      guard (not (is_pinned state n)) already_pinned >>=? λ _.
      guard (not (any (removes n) state.events)) workspace_was_removed

  abbrev pinned_args : ℕ → String → String → Items → Bool → Fields → String → String → Fields
  pinned_args n pin_id reason contents froze modes actor path = field "try" (nat n) (
      field "pin_id" (str pin_id) (
        field "workspace" (str path) (
          field "contents" (arr contents) (
            field "reason" (str reason) (
              field "actor" (str actor) (
                field "layout" (nat layout_version)
                  (field "froze" (bool froze) (field "modes" (obj modes) end))))))))

  abbrev frozen : Bool → String → Fields → Exec S Bool
  frozen false path modes = pure false
  frozen true path modes = do
    done ← gets (λ w. (site.freeze path modes w.outside).0)
    modify (λ w. record w { outside = (site.freeze path modes w.outside).1 })
    pure done

  abbrev pub the_pin : String → AttemptState → Result Pin
  the_pin pin_id state =
      or_raise (find (λ (p : Pin). str_eq p.pin_id pin_id) state.pins) no_such_try

  -- The promise, once it may be made.
  unfoldable pub promise : ℕ → String → String → Bool → Exec S Pin
  promise n reason actor freeze = do
    let path = site.path n
    contents ← gets (λ w. site.inventory path w.outside)
    modes ← gets (λ w. site.modes path w.outside)
    froze ← frozen freeze path modes
    pin_id ← gets (λ w. site.fresh_id w.outside)
    append EventName.pinned (pinned_args n pin_id reason contents froze modes actor path)
    after ← fold
    lift (the_pin pin_id after)

  unfoldable pub pin_under_claim : ℕ → String → String → Bool → Exec S Pin
  unfolding pinnable promise
  pin_under_claim n reason actor freeze = do
    state ← fold
    lift (pinnable state n)
    there ← gets (λ w. site.there (site.path n) w.outside)
    lift (guard there no_workspace)
    promise n reason actor freeze

  -- `pin`: the try, its workspace, the promise.
  unfoldable pub pin : ℕ → String → Option String → Bool → Exec S Pin
  unfolding pin_under_claim
  pin n reason given freeze = do
    reason' ← lift (reason_of reason)
    actor ← lift (actor_of given)
    claim (pin_under_claim n reason' actor freeze)

  abbrev unpinned_args : ℕ → String → String → String → Bool → Fields
  unpinned_args n pin_id reason actor thaw = field "try" (nat n) (
      field "pin_id" (str pin_id)
        (field "reason" (str reason) (field "actor" (str actor) (field "thaw" (bool thaw) end))))

  abbrev thawed : Bool → Pin → JournalEvent → Exec S (Unit {0})
  thawed false p e = pure tt
  thawed true p e = do
    let modes = fields_of (get "modes" e.args)
    done ← gets (λ w. (site.thaw p.workspace modes w.outside).0)
    modify (λ w. record w { outside = (site.thaw p.workspace modes w.outside).1 })
    lift (guard done thaw_incomplete)

  -- `unpin`: the release is recorded before the modes are restored.
  unfoldable pub unpin : String → String → Option String → Bool → Exec S Pin
  unpin pin_id reason given thaw = do
    reason' ← lift (reason_of reason)
    actor ← lift (actor_of given)
    claim (do
      state ← fold
      selected ← lift (
          or_raise (find (λ (p : Pin). str_eq p.pin_id pin_id && is_active p) state.pins)
            no_active_pin)
      event ← lift (or_raise (find (pins_event pin_id) state.events) no_such_try)
      append EventName.unpinned (unpinned_args selected.try_number pin_id reason' actor thaw)
      thawed thaw selected event
      after ← fold
      lift (the_pin pin_id after))
