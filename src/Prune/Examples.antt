-- ===== src/Prune/Examples.antt =====
-- A record with two failed tries, of which a policy removes the older.
use hedloom.Base.{
  ℕ, ◌+◌, ◌≡◌, refl, true, Option, none, some, List, [], ◌∷◌, map, ◌==◌, if◌then◌else◌,
}
use mathlib.Core.List.{Memᴰ}
use mathlib.Core.List.Memᴰ.{head}
use hedloom.Json.{str, nat, end, field}
use hedloom.Result.{Result, ok, err}
use hedloom.Journal.Types.{EventName, AttemptState, TryState}
use hedloom.Journal.World.{LayoutFile, Line, event_line, Document, document, Disk}
use hedloom.Journal.Fold.{
  started, fold_events, fold_loop, fold_finish, sort_tries, fold_event, fold_known, fold_numbered,
  insert_try, touch, update_try,
}
use hedloom.Journal.Disk.{
  events_of, layout_check, parse_lines, raw_lines, fold_disk, manifest_of, standing_of,
}
use hedloom.Prune.Units.{duration, size, measure, counted}
use hedloom.Prune.Policy.{RetentionRule, RetentionPolicy}
use hedloom.Prune.Workspace.{
  Node, file, directory, Entries, no_entries, entry, workspace_bytes, remove_workspace, bytes_in,
}
use hedloom.Prune.Survey.Newest.{rank, newest_first, insert_number}
use hedloom.Prune.Survey.{
  Site, Candidate, Verdict, verdict, verdicts, survey_record, candidates_of, measured_verdict,
  select_rule, rule_measures,
}
use hedloom.Prune.Promises.{Spent, try_of, survey-Spent, each_try_has_one_verdict}
use hedloom.Prune.Freed.{bytes_on_disk, removal_frees_what_was_measured, nothing_left_to_measure}

abbrev event : ℕ → EventName → ℕ → Line
event seq name n = event_line (record {
  seq = seq;
  at = "t";
  event = name;
  args = field "try" (nat n) (field "outcome" (str "failed") end);
})

abbrev failed_manifest : ℕ → Document
failed_manifest n =
    document
      (field "try" (nat n) (field "outcome" (str "failed") (field "published_at" (str "t") end)))

abbrev pub spent_disk : Disk
spent_disk = record {
  exists = true;
  layout = LayoutFile.version 1;
  lines =
      event 0 EventName.try_started 0
      ∷ event 1 EventName.terminal 0
      ∷ event 2 EventName.try_started 1
      ∷ event 3 EventName.terminal 1
      ∷ [];
  tail = none;
  manifest = λ n.
      if n == 0
      then some (failed_manifest 0)
      else if n == 1
      then some (failed_manifest 1)
      else none;
  standing = none;
}

abbrev work : Entries
work =
    entry "stdout.log" (file 10)
      (entry "data" (directory (entry "x" (file 32) no_entries)) no_entries)

abbrev pub site : Site
site = record {
  clock = 1000000000000;
  microseconds_at = λ text. some 0;
  workspace = λ identity n. some (directory work);
  within = λ identity n. true;
}

abbrev failed_rule : RetentionRule
failed_rule = record {
  name = "failed";
  outcome = "failed" ∷ [];
  older_than = some "1d";
  larger_than = none;
  keep_latest = 1;
  keep_logs = true;
}

abbrev pub policy : RetentionPolicy
policy = record { rules = failed_rule ∷ []; floor = "7d" }

abbrev state_read : Result AttemptState → AttemptState
state_read (ok state) = state
state_read (err e) = record { tries = []; current_try = none; pins = []; events = [] }

abbrev verdicts_read : Result (List Verdict) → List Verdict
verdicts_read (ok vs) = vs
verdicts_read (err e) = []

abbrev spent_state : AttemptState
spent_state = state_read (fold_disk spent_disk)

abbrev surveyed : List Verdict
surveyed = verdicts_read (survey_record site policy 604800 "r" spent_disk)

abbrev pub older : Candidate
older = record {
  identity = "r";
  try_number = 0;
  bytes = 32;
  outcome = str "failed";
  rule = "failed";
}

abbrev first_of : List TryState → TryState
first_of [] = started 0 ""
first_of (t ∷ ts) = t

record Runs : Type 0 where
  folded : fold_disk spent_disk ≡ ok spent_state
  stood : standing_of spent_disk ≡ ok none
  judged : survey_record site policy 604800 "r" spent_disk ≡ ok surveyed
  selected : candidates_of surveyed ≡ older ∷ []
  there : Memᴰ older (candidates_of surveyed)
  tried : Memᴰ (first_of spent_state.tries) spent_state.tries

runs : Runs
unfolding events_of layout_check parse_lines raw_lines fold_disk manifest_of standing_of fold_events
    fold_loop fold_finish sort_tries fold_event fold_known fold_numbered insert_try touch update_try
    duration size measure counted workspace_bytes rank newest_first insert_number verdict verdicts
    survey_record measured_verdict select_rule rule_measures
runs = record {
  folded = refl;
  stood = refl;
  judged = refl;
  selected = refl;
  there = head refl;
  tried = head refl;
}

survey-Spent_example :
    Spent site policy 604800 "r" spent_disk none spent_state spent_state.tries older
survey-Spent_example =
    survey-Spent site policy 604800 "r" spent_disk spent_state none surveyed runs.folded runs.stood
      runs.judged older runs.there

each_try_has_one_verdict_example : map try_of surveyed ≡ map (λ u. some u.number) spent_state.tries
each_try_has_one_verdict_example =
    each_try_has_one_verdict site policy 604800 "r" spent_disk spent_state none surveyed runs.folded
      runs.stood runs.judged (first_of spent_state.tries) runs.tried

abbrev remaining : Option Node
remaining = some (directory (entry "stdout.log" (file 10) no_entries))

removes_data : remove_workspace true (some (directory work)) ≡ ok remaining
unfolding remove_workspace
removes_data = refl

removal_frees_what_was_measured_example :
    workspace_bytes true (some (directory work)) + bytes_on_disk remaining ≡ bytes_in work
removal_frees_what_was_measured_example =
    removal_frees_what_was_measured true work remaining refl removes_data

nothing_left_to_measure_example : workspace_bytes true remaining ≡ 0
nothing_left_to_measure_example =
    nothing_left_to_measure true (some (directory work)) remaining removes_data
