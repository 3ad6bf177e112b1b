-- ===== src/Journal/Fold.antt =====
-- `_fold_events` of journal.py: the state of a record is derived from its events alone. The
-- dictionary of tries is a list with the newest entry first; its order is not observed, since the
-- result is sorted by number. The pins keep the dictionary's order of insertion.
pub mod Loop
pub mod Sorting
use hedloom.Base.{
  ℕ, ◌+◌, String, Bool, true, false, not, ◌&&◌, ◌||◌, Option, none, some, List, [], ◌∷◌, ◌++◌, find,
  any, all, ◌==◌, ltb, str_eq, if◌then◌else◌, is_some,
}
use hedloom.Json.{
  Json, null, bool, str, arr, obj, Items, nil, item, Fields, end, field, lookup, get, get_or,
  without, truthy, or_else, is_null, fields_of, items_of, natural,
}
use hedloom.Result.{
  Result, ok, err, ◌>>=?◌, guard, or_raise, no_valid_try, started_twice, before_start, invalid_pin,
  unknown_pin, unknown_outcome, bad_fields,
}
use hedloom.Journal.Types.{
  EventName, JournalEvent, Phase, unsubmitted, intended, submitted, TryState, FrozenFile, Pin,
  is_active, AttemptState, try_at, is_outcome_value,
}

-- The two dictionaries of the loop.
pub record Folding : Type 0 where
  pub tries : List TryState
  pub pins : List Pin

abbrev pub nothing_folded : Folding
nothing_folded = record { tries = []; pins = [] }

-- The entry that `try_started` creates.
abbrev pub started : ℕ → String → TryState
started n at = record {
  number = n;
  phase = unsubmitted;
  handle = null;
  transport = null;
  substrate = null;
  outcome = null;
  manifest_path = null;
  cancel_requested = false;
  cancel_reason = null;
  reuse_accepted = false;
  reuse_reason = null;
  placement = end;
  observations = [];
  started_at = some at;
  ended_at = none;
}

-- The change of the try's entry that an event makes.
unfoldable pub touch : JournalEvent → EventName → TryState → TryState
touch e EventName.submit_intent t =
    let transport = get "transport" e.args in
    record t {
      phase = intended;
      transport = transport;
      substrate = or_else (get "substrate" e.args) transport;
    }
touch e EventName.submit_receipt t = record t { phase = submitted; handle = get "handle" e.args }
touch e EventName.submit_refused t = record t { phase = unsubmitted; handle = null }
touch e EventName.submit_lost t = record t { phase = unsubmitted; handle = null }
touch e EventName.submit_indeterminate t = record t { phase = intended }
touch e EventName.cancel_requested t = record t {
  cancel_requested = true;
  cancel_reason = get "reason" e.args;
}
touch e EventName.placement t = record t { placement = without "try" e.args }
touch e EventName.reuse_accepted t = record t {
  reuse_accepted = true;
  reuse_reason = get "reason" e.args;
}
touch e EventName.observed t = record t {
  observations = t.observations ++ without "try" e.args ∷ [];
}
touch e EventName.terminal t = record t {
  phase = Phase.terminal;
  outcome = get "outcome" e.args;
  manifest_path = get "manifest" e.args;
  ended_at = some e.at;
}
touch e _ t = t

-- `tries[number][…] = …`
unfoldable pub update_try : ℕ → (TryState → TryState) → List TryState → List TryState
update_try n f [] = []
update_try n f (t ∷ ts) = if t.number == n then f t ∷ ts else t ∷ update_try n f ts

-- `FrozenFile(**entry)`: exactly the four fields.
abbrev frozen_keys : Fields → Bool
frozen_keys end = true
frozen_keys (field k v fs) =
    (str_eq k "relpath" || str_eq k "size" || str_eq k "modified_ns" || str_eq k "digest")
    && frozen_keys fs

unfoldable pub frozen_file : Json → Option FrozenFile
frozen_file (obj fs) =
    if frozen_keys fs
      && is_some (lookup "relpath" fs)
      && is_some (lookup "size" fs)
      && is_some (lookup "modified_ns" fs)
      && is_some (lookup "digest" fs)
    then some (record {
      relpath = get "relpath" fs;
      size = get "size" fs;
      modified_ns = get "modified_ns" fs;
      digest = get "digest" fs;
    })
    else none
frozen_file _ = none

unfoldable pub frozen_files : List Json → Result (List FrozenFile)
unfolding frozen_file
frozen_files [] = ok []
frozen_files (x ∷ xs) =
    or_raise (frozen_file x) bad_fields >>=? λ f. frozen_files xs >>=? λ fs. ok (f ∷ fs)

abbrev pub pin_at : String → List Pin → Option Pin
pin_at i = find (λ p. str_eq p.pin_id i)

-- The pin that a `pinned` event records.
unfoldable pub fold_pinned : ℕ → JournalEvent → Json → List Pin → Result (List Pin)
unfolding frozen_files
fold_pinned n e (str i) pins =
    if is_some (pin_at i pins)
    then err invalid_pin
    else (frozen_files (items_of (get_or "contents" (arr nil) e.args)) >>=? λ contents. ok (
        pins
        ++ record {
          pin_id = i;
          try_number = n;
          workspace = get_or "workspace" (str "") e.args;
          contents = contents;
          reason = get_or "reason" (str "") e.args;
          actor = get_or "actor" (str "") e.args;
          at = e.at;
          layout = get "layout" e.args;
          froze = truthy (get "froze" e.args);
          released_at = none;
          released_by = null;
          released_reason = null;
        }
          ∷ []))
fold_pinned n e _ pins = err invalid_pin

abbrev released : JournalEvent → Pin → Pin
released e p = record p {
  released_at = some e.at;
  released_by = get "actor" e.args;
  released_reason = get "reason" e.args;
}

unfoldable pub release_pin : JournalEvent → String → List Pin → List Pin
release_pin e i [] = []
release_pin e i (p ∷ ps) = if str_eq p.pin_id i then released e p ∷ ps else p ∷ release_pin e i ps

unfoldable pub fold_unpinned : JournalEvent → Json → List Pin → Result (List Pin)
unfolding release_pin
fold_unpinned e (str i) pins = elim (pin_at i pins) [
  | none ↦ err unknown_pin
  | some p ↦ if is_active p then ok (release_pin e i pins) else err unknown_pin
]
fold_unpinned e _ pins = err unknown_pin

-- An event of a try that has started.
unfoldable pub fold_known : ℕ → JournalEvent → EventName → Folding → Result Folding
fold_known n e EventName.pinned s =
    fold_pinned n e (get "pin_id" e.args) s.pins >>=? λ pins. ok (record s { pins = pins })
fold_known n e EventName.unpinned s =
    fold_unpinned e (get "pin_id" e.args) s.pins >>=? λ pins. ok (record s { pins = pins })
fold_known n e name s = ok (record s { tries = update_try n (touch e name) s.tries })

unfoldable pub fold_numbered : ℕ → JournalEvent → EventName → Folding → Result Folding
fold_numbered n e EventName.try_started s =
    if is_some (try_at n s.tries)
    then err started_twice
    else ok (record s { tries = started n e.at ∷ s.tries })
fold_numbered n e name s =
    if is_some (try_at n s.tries) then fold_known n e name s else err before_start

-- One round of the loop over the events.
unfoldable pub fold_event : Folding → JournalEvent → Result Folding
fold_event s e = elim (natural (get "try" e.args)) [
  | none ↦ err no_valid_try
  | some n ↦ fold_numbered n e e.event s
]

unfoldable pub fold_loop : Folding → List JournalEvent → Result Folding
fold_loop s [] = ok s
fold_loop s (e ∷ es) = fold_event s e >>=? λ s'. fold_loop s' es

-- `for number in sorted(tries)`
unfoldable pub insert_try : TryState → List TryState → List TryState
insert_try t [] = t ∷ []
insert_try t (u ∷ us) = if ltb t.number u.number then t ∷ u ∷ us else u ∷ insert_try t us

unfoldable pub sort_tries : List TryState → List TryState
unfolding insert_try
sort_tries [] = []
sort_tries (t ∷ ts) = insert_try t (sort_tries ts)

-- An outcome that is not `None` is one of the four.
abbrev pub outcome_known : TryState → Bool
outcome_known t = is_null t.outcome || is_outcome_value t.outcome

abbrev pub last_number : List TryState → Option ℕ
last_number [] = none
last_number (t ∷ []) = some t.number
last_number (t ∷ u ∷ us) = last_number (u ∷ us)

unfoldable pub fold_finish : List JournalEvent → Folding → Result AttemptState
fold_finish es s =
    let tries = sort_tries s.tries in
    if all outcome_known tries
    then ok (record { tries = tries; current_try = last_number tries; pins = s.pins; events = es })
    else err unknown_outcome

-- `_fold_events`
unfoldable pub fold_events : List JournalEvent → Result AttemptState
fold_events es = fold_loop nothing_folded es >>=? fold_finish es
