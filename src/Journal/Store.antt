-- ===== src/Journal/Store.antt =====
-- The methods of `AttemptJournal` in journal.py.
use hedloom.Base.{
  ℕ, ◌+◌, String, Bool, true, false, not, Option, none, some, str_eq, is_some, if◌then◌else◌,
}
use hedloom.Json.{str, Fields, get, merge, natural}
use hedloom.Result.{
  guard, or_raise, unknown_event, bad_try_number, concurrent_claim, claim_not_held, no_manifest,
  manifest_exists, unknown_outcome,
}
use hedloom.Journal.Types.{EventName, is_known, TryState, AttemptState, current, is_outcome}
use hedloom.Journal.World.{
  World, Exec, pure, raise, lift, gets, modify, durable, write, now, ◌>>=◌, ◌>>◌,
}
use hedloom.Journal.Disk.{
  layout_check, fold_disk, manifest_of, standing_of, append_line, set_manifest, set_standing,
  created_record, sequence, try_only, next_number, resumable, outcome_document, terminal_args,
}

module _ {S : Type 0} where
  unfoldable pub require_layout : Exec S (Unit {0})
  require_layout w = (layout_check w.disk, w)

  unfoldable pub fold : Exec S AttemptState
  fold w = (fold_disk w.disk, w)

  unfoldable pub read_manifest : ℕ → Exec S (Option Fields)
  read_manifest n w = (manifest_of n w.disk, w)

  unfoldable pub read_standing : Exec S (Option Fields)
  read_standing w = (standing_of w.disk, w)

  -- `_create_record`: the directory becomes visible with its layout in it.
  unfoldable pub create_record : Exec S (Unit {0})
  create_record = write created_record

  abbrev pub create_if_missing : Bool → Exec S (Unit {0})
  create_if_missing true = pure tt
  create_if_missing false = create_record

  -- the `finally` of `claim`
  abbrev pub let_go : World S → World S
  let_go w = record w { claim_held = false }

  unfoldable pub release : {A : Type 0} → Exec S A → Exec S A
  release m w = let (r, w') = m w in (r, let_go w')

  abbrev pub holding : {A : Type 0} → Bool → Exec S A → Exec S A
  holding false m = raise concurrent_claim
  holding true m = release (require_layout >> (modify (λ w. record w { claim_held = true }) >> m))

  -- `with journal.claim(): m`
  unfoldable pub claim : {A : Type 0} → Exec S A → Exec S A
  unfolding create_record release require_layout
  claim m = do
    there ← gets (λ w. w.disk.exists)
    create_if_missing there
    free ← gets (λ w. w.lock_free)
    holding free m

  abbrev pub appended : EventName → Fields → String → World S → World S
  appended name args at w =
      let seq = sequence w.next_seq w.disk in
      record w {
        disk = append_line (record { seq = seq; at = at; event = name; args = args }) w.disk;
        next_seq = some (seq + 1);
      }

  -- `append`
  unfoldable pub append : EventName → Fields → Exec S (Unit {0})
  unfolding require_layout
  append name args = do
    lift (guard (is_known name) unknown_event)
    lift (guard (is_some (natural (get "try" args))) bad_try_number)
    modify (λ w. record w { disk = record w.disk { exists = true } })
    require_layout
    at ← now
    durable (appended name args at)

  abbrev pub allocate : Option TryState → Fields → Exec S ℕ
  allocate t actor =
      let number = next_number t in
      append EventName.try_started (merge (try_only number) actor) >> pure number

  abbrev pub resume_or_allocate : Option TryState → Fields → Exec S ℕ
  resume_or_allocate none actor = allocate none actor
  resume_or_allocate (some t) actor =
      if resumable (some t) then pure t.number else allocate (some t) actor

  abbrev pub held : Exec S (Unit {0})
  held w = (guard w.claim_held claim_not_held, w)

  -- `begin_try`; `actor` is the field of that name, or no field
  unfoldable pub begin_try : Fields → Exec S ℕ
  unfolding append fold
  begin_try actor = do held; state ← fold; resume_or_allocate (current state) actor

  -- `make_standing`
  unfoldable pub make_standing : ℕ → Exec S Fields
  unfolding read_manifest
  make_standing n = do
    held
    found ← read_manifest n
    doc ← lift (or_raise found no_manifest)
    write (set_standing doc)
    pure doc

  abbrev pub stand_if_succeeded : String → Fields → Exec S (Unit {0})
  stand_if_succeeded outcome doc =
      if str_eq outcome "succeeded" then write (set_standing doc) else pure tt

  -- The three writes: the manifest, the standing result, and then the terminal event.
  abbrev pub publish_document : String → ℕ → String → Fields → Exec S Fields
  publish_document path n outcome doc = do
    write (set_manifest n doc)
    stand_if_succeeded outcome doc
    append EventName.terminal (terminal_args n (str outcome) path)
    pure doc

  abbrev pub publish_known : String → String → ℕ → String → Fields → Exec S Fields
  publish_known identity path n outcome manifest = do
    there ← gets (λ w. is_some (w.disk.manifest n))
    lift (guard (not there) manifest_exists)
    at ← now
    publish_document path n outcome (outcome_document identity n outcome at manifest)

  -- `publish_terminal`
  unfoldable pub publish_terminal : String → String → ℕ → String → Fields → Exec S Fields
  unfolding append
  publish_terminal identity path n outcome manifest = do
    held
    lift (guard (is_outcome outcome) unknown_outcome)
    publish_known identity path n outcome manifest
