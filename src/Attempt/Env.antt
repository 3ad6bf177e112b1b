-- ===== src/Attempt/Env.antt =====
-- What the protocol is given, and the helpers that its operations share: `is_reusable`,
-- `_bundle_for_try`, `_require_matching_inputs`, and the selection that a launch publishes.
use hedloom.Base.{
  ℕ, String, Bool, true, false, not, ◌&&◌, ◌||◌, Option, none, some, List, [], ◌∷◌, ◌++◌, find,
  str_eq, if◌then◌else◌, is_some,
}
use hedloom.Json.{
  Json, bool, nat, str, obj, Fields, end, field, lookup, get, put, truthy, is_null, natural,
}
use hedloom.Result.{Result, ok, guard, stale_identity, no_such_try}
use hedloom.Journal.Types.{EventName, JournalEvent, TryState, AttemptState, try_at}
use hedloom.Journal.World.{Selection, Exec, pure, raise, gets, modify, durable, ◌>>=◌, ◌>>◌}
use hedloom.Journal.Disk.{terminal_args}
use hedloom.Journal.Store.{append, fold}
use hedloom.Transport.{Transport, Submission}
use hedloom.Reuse.{input_digest}

-- What `capture_outputs` does: the captured artifacts, or the text of what was not kept.
pub data Capture : Type 0 where
  captured : List Json → Capture
  missing : String → Capture

-- The record's names and paths, the transport, and the parts of the outside world that a launch and
-- a reconciliation consult: the hash, the selection's publisher (`some` text: it raised), the
-- accessibility of borrowed outputs, the capture of outputs and the diagnostics.
pub record Env (S : Type 0) : Type 0 where
  pub identity : String
  pub records_dir : String
  pub manifest_path : ℕ → String
  pub try_name : ℕ → String
  pub workspace_path : String → String → String
  pub hash : Fields → String
  pub transport : Transport S
  pub publish : Selection → S → Option String × S
  pub borrowed_accessible : List Json → S → Bool
  pub capture : Json → Json → Fields → Json → S → Capture
  pub write_diagnostics : Json → Fields → S → Option String × S

-- `is_reusable`, once the try is looked up
abbrev pub is_accepted : Option TryState → Bool
is_accepted none = false
is_accepted (some t) = t.reuse_accepted

abbrev pub has_outcome : String → Fields → Bool
has_outcome s doc = elim (get "outcome" doc) [ str o ↦ str_eq o s | _ ↦ false ]

unfoldable pub is_reusable : Option TryState → Fields → Bool
is_reusable t doc = is_accepted t || has_outcome "succeeded" doc

-- The try that a manifest names.
abbrev pub named_try : List TryState → Fields → Option TryState
named_try tries doc = elim (natural (get "try" doc)) [ none ↦ none | some n ↦ try_at n tries ]

abbrev created_event : List JournalEvent → Option JournalEvent
created_event = find (λ e. elim e.event [ EventName.created ↦ true | _ ↦ false ])

abbrev pub is_empty : Fields → Bool
is_empty end = true
is_empty (field k v fs) = false

module _ {S : Type 0} (env : Env S) where
  -- `_bundle_for_try`; `work_dir` is `none` where the caller gives none
  abbrev pub bundle_for_try : Fields → ℕ → Option String → Fields
  bundle_for_try bundle n work_dir =
      let prepared = put "try" (nat n) bundle in
      let root : String = elim work_dir [ none ↦ env.records_dir | some r ↦ r ] in
      if not (truthy (get "outputs" bundle)) && not (is_some work_dir)
      then prepared
      else put "workdir" (str (env.workspace_path root (env.try_name n))) prepared

  abbrev pub same_digest : Json → String → Bool
  same_digest (str d) c = str_eq d c
  same_digest _ c = false

  abbrev pub created_check : Option JournalEvent → Fields → Result (Unit {0})
  created_check none bundle = ok tt
  created_check (some e) bundle =
      let recorded = get "input_digest" e.args in
      if is_null recorded || is_empty bundle
      then ok tt
      else guard (same_digest recorded (input_digest env.hash bundle)) stale_identity

  -- `_require_matching_inputs`
  unfoldable pub require_matching_inputs : AttemptState → Fields → Result (Unit {0})
  unfolding input_digest
  require_matching_inputs state bundle = created_check (created_event state.events) bundle

  abbrev pub publish_errors : Option String → List String → List String
  publish_errors none es = es
  publish_errors (some e) es = es ++ e ∷ []

  -- `select`: the selection is kept whatever its publisher does.
  unfoldable pub select : ℕ → String → Bool → Fields → Exec S (Unit {0})
  select n disposition bound prepared = modify (λ w.
      let selection : Selection = record {
        try_number = n;
        disposition = disposition;
        workspace_known = bound;
        workspace = get "workdir" prepared;
      } in
      let answer = env.publish selection w.outside in
      record w {
        selection = some selection;
        publication_errors = publish_errors answer.0 w.publication_errors;
        outside = answer.1;
      })

  abbrev pub select_bound : ℕ → String → Json → Exec S (Unit {0})
  select_bound n disposition (obj handle) =
      if is_some (lookup "workdir" handle) then select n disposition true handle else pure tt
  select_bound n disposition _ = pure tt

  abbrev pub chosen_try : Option TryState → String → Exec S (Unit {0})
  chosen_try none disposition = raise no_such_try
  chosen_try (some t) disposition = select_bound t.number disposition t.handle

  -- `existing`
  unfoldable pub existing : ℕ → String → Exec S (Unit {0})
  unfolding select
  existing n disposition = do
    select n disposition false end
    state ← fold
    chosen_try (try_at n state.tries) disposition

  abbrev pub repaired_args : ℕ → Fields → Fields
  repaired_args n doc =
      put "repaired" (bool true) (terminal_args n (get "outcome" doc) (env.manifest_path n))

  -- The terminal event of a try whose manifest is visible and whose event was lost.
  unfoldable pub repair : ℕ → Fields → Exec S (Unit {0})
  repair n doc = append EventName.terminal (repaired_args n doc)

  -- `transport.submit`; the number joins the history of submissions
  unfoldable pub call_submit : ℕ → Fields → Exec S Submission
  call_submit n bundle = do
    let name = env.try_name n
    answer ← gets (λ w. (env.transport.submit name bundle w.outside).0)
    durable (λ w. record w {
      outside = (env.transport.submit name bundle w.outside).1;
      submissions = n ∷ w.submissions;
    })
    pure answer
