-- ===== src/Protocol/Examples.antt =====
-- A record's life in one process: a launch of in-process work, its reconciliation, and a second launch.
use hedloom.Base.{ℕ, ◌+◌, ◌≡◌, refl, ◌≤◌, true, false, Option, none, some, List, [], ◌∷◌, ◌++◌}
use hedloom.Json.{null, str, nat, obj, Fields, end, field, get}
use hedloom.Result.{Result, ok, err}
use hedloom.Journal.Types.{JournalEvent, AttemptState, TryState, try_at, is_terminal, current}
use hedloom.Journal.Disk.{
  snapshot, layout_check, created_record, append_line, manifest_of, parse_lines, raw_lines,
  set_standing, standing_of, events_of, fold_disk, set_manifest,
}
use hedloom.Journal.Store.{
  claim, fold, append, begin_try, create_record, make_standing, read_manifest, read_standing,
  release, require_layout, publish_terminal,
}
use hedloom.Journal.World.{World, ◌>>=◌, gets, write, modify, lift, durable, now, pure, raise}
use hedloom.Journal.Fold.{
  started, fold_events, fold_loop, fold_finish, sort_tries, fold_event, fold_known, fold_numbered,
  fold_pinned, fold_unpinned, frozen_file, frozen_files, insert_try, release_pin, touch, update_try,
}
use hedloom.Attempt.Env.{
  Env, captured, call_submit, existing, is_reusable, repair, require_matching_inputs, select,
}
use hedloom.Attempt.Launch.{
  launch_or_attach, launch_locked, after_submit, call_discover, completed, launch_current,
  launch_new, launch_phase, launch_published, launch_standing, launch_unpublished, record_created,
  record_placement, reuse_or_retry, settle_intent,
}
use hedloom.Reuse.{input_digest, material_of}
use hedloom.Transport.InProcess.{
  Implementations, Results, returned, in_process, submit, discover, poll,
}
use hedloom.Attempt.Reconcile.{
  reconcile, reconcile_locked, reconcile_published, observe, after_observation, conclude,
}
use hedloom.Protocol.{Reach, launch, reconciling, here, next, untouched}
use hedloom.Journal.Ledger.{submissions_of, undone, intents, IsManifest}
use hedloom.Journal.Sound.Append.{On}
use hedloom.Journal.Sound.Claim.{Healthy}
use hedloom.Protocol.Healthy.{Step-Healthy, untouched-Healthy}
use hedloom.Protocol.History.{manifests_are_immutable, events_are_append_only}
use hedloom.Protocol.Shown.{snapshot_of}
use hedloom.Protocol.Promises.{
  no_duplicate_submission, intent_before_submission, always_readable, terminal_is_published,
  standing_is_published, only_the_current_try_is_live, manifest_belongs_to_a_try,
}

abbrev pub doubling : Implementations
doubling operation = some (λ args. returned (get "x" args))

abbrev pub local : Env Results
local = record {
  identity = "hedloom-00";
  records_dir = "/records";
  manifest_path = λ n. "manifest.json";
  try_name = λ n. "hedloom-00";
  workspace_path = λ root name. "/work";
  hash = λ fs. "digest";
  transport = in_process doubling (λ s. s);
  publish = λ s rs. (none, rs);
  borrowed_accessible = λ xs rs. true;
  capture = λ outputs workdir detail digest rs. captured [];
  write_diagnostics = λ workdir detail rs. (none, rs);
}

abbrev pub request : Fields
request = field "operation" (str "double") (field "arguments" (obj (field "x" (nat 3) end)) end)

abbrev launched : World Results
launched = (launch_or_attach local request none (untouched [])).1

abbrev events_read : Result (List JournalEvent) → List JournalEvent
events_read (ok es) = es
events_read (err e) = []

abbrev launched_log : List JournalEvent
launched_log = events_read (events_of launched.disk)

abbrev reconciled : World Results
reconciled = (reconcile local null launched).1

abbrev state_read : Result AttemptState → AttemptState
state_read (ok state) = state
state_read (err e) = record { tries = []; current_try = none; pins = []; events = [] }

abbrev document_read : Result (Option Fields) → Fields
document_read (ok (some doc)) = doc
document_read _ = end

abbrev try_read : Option TryState → TryState
try_read (some t) = t
try_read none = started 0 ""

abbrev launched_state : AttemptState
launched_state = state_read (fold_disk launched.disk)

abbrev reconciled_state : AttemptState
reconciled_state = state_read (fold_disk reconciled.disk)

abbrev published : Fields
published = document_read (manifest_of 0 reconciled.disk)

abbrev reconciled_try : TryState
reconciled_try = try_read (try_at 0 reconciled_state.tries)

abbrev live_try : TryState
live_try = try_read (try_at 0 launched_state.tries)

once : Reach local (untouched []) launched
once = next here (launch request none refl)

twice : Reach local (untouched []) reconciled
twice = next once (reconciling null)

-- What the two runs compute to: the launch submits its try once, and the reconciliation publishes what
-- the work returned.
record Runs : Type 0 where
  launched_reads : events_of launched.disk ≡ ok launched_log
  launched_folds : fold_disk launched.disk ≡ ok launched_state
  reconciled_folds : fold_disk reconciled.disk ≡ ok reconciled_state
  launched_once : launched.submissions ≡ 0 ∷ []
  published_succeeded : get "outcome" published ≡ str "succeeded"
  reconciled_try_there : try_at 0 reconciled_state.tries ≡ some reconciled_try
  reconciled_try_ended : is_terminal reconciled_try ≡ true
  published_read : manifest_of 0 reconciled.disk ≡ ok (some published)
  standing_read : standing_of reconciled.disk ≡ ok (some published)
  live_try_there : try_at 0 launched_state.tries ≡ some live_try
  live_try_going : is_terminal live_try ≡ false

runs : Runs
unfolding layout_check created_record append_line manifest_of parse_lines raw_lines set_standing
    standing_of events_of fold_disk set_manifest claim fold append begin_try create_record
    make_standing read_manifest read_standing release require_layout publish_terminal ◌>>=◌ gets
    write modify lift durable now pure raise fold_events fold_loop fold_finish sort_tries fold_event
    fold_known fold_numbered fold_pinned fold_unpinned frozen_file frozen_files insert_try
    release_pin touch update_try call_submit existing is_reusable repair require_matching_inputs
    select launch_or_attach launch_locked after_submit call_discover completed launch_current
    launch_new launch_phase launch_published launch_standing launch_unpublished record_created
    record_placement reuse_or_retry settle_intent input_digest material_of in_process submit
    discover poll reconcile reconcile_locked reconcile_published observe after_observation conclude
runs = record {
  launched_reads = refl;
  launched_folds = refl;
  reconciled_folds = refl;
  launched_once = refl;
  published_succeeded = refl;
  reconciled_try_there = refl;
  reconciled_try_ended = refl;
  published_read = refl;
  standing_read = refl;
  live_try_there = refl;
  live_try_going = refl;
}

no_duplicate_submission_example : submissions_of 0 launched.submissions ≤ 1 + undone 0 launched_log
no_duplicate_submission_example = no_duplicate_submission once 0 launched_log runs.launched_reads

intent_before_submission_example : submissions_of 0 launched.submissions ≤ intents 0 launched_log
intent_before_submission_example = intent_before_submission once 0 launched_log runs.launched_reads

always_readable_example :
    (st : AttemptState) × (fold_disk reconciled.disk ≡ ok st)
    × (snapshot reconciled.disk ≡ snapshot_of st reconciled.disk)
always_readable_example = always_readable twice

terminal_is_published_example :
    (doc : Fields) × (manifest_of 0 reconciled.disk ≡ ok (some doc)) × IsManifest 0 doc
terminal_is_published_example =
    terminal_is_published twice reconciled_state 0 reconciled_try runs.reconciled_folds
      runs.reconciled_try_there runs.reconciled_try_ended

standing_is_published_example :
    (n : ℕ) × (manifest_of n reconciled.disk ≡ ok (some published)) × IsManifest n published
standing_is_published_example = standing_is_published twice published runs.standing_read

only_the_current_try_is_live_example : current launched_state ≡ some live_try
only_the_current_try_is_live_example =
    only_the_current_try_is_live once launched_state 0 live_try runs.launched_folds
      runs.live_try_there runs.live_try_going

manifest_belongs_to_a_try_example : (t : TryState) × (try_at 0 reconciled_state.tries ≡ some t)
manifest_belongs_to_a_try_example =
    manifest_belongs_to_a_try twice reconciled_state 0 published runs.reconciled_folds
      runs.published_read

-- The second launch finds the result.
abbrev again : World Results
again = (launch_or_attach local request none reconciled).1

thrice : Reach local reconciled again
thrice = next here (launch request none refl)

manifests_are_immutable_example : manifest_of 0 again.disk ≡ ok (some published)
manifests_are_immutable_example =
    manifests_are_immutable twice thrice 0 published runs.published_read

events_are_append_only_example :
    (more : List JournalEvent) × (events_of again.disk ≡ ok (launched_log ++ more))
events_are_append_only_example =
    events_are_append_only once (next (next here (reconciling null)) (launch request none refl))
      launched_log runs.launched_reads

Step-Healthy_example : On Healthy launched
Step-Healthy_example =
    Step-Healthy local (launch request none refl) (untouched-Healthy {S = Results} [])
