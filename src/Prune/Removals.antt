-- ===== src/Prune/Removals.antt =====
-- The survey's candidate of the examples, removed.
use hedloom.Base.{ℕ, ◌+◌, ◌≡◌, refl, String, true, false, none, [], ◌∷◌, length}
use hedloom.Result.{Result, ok, err}
use hedloom.Journal.World.{◌>>=◌, gets, write, modify, lift, durable, now, pure, raise}
use hedloom.Journal.Fold.{
  fold_events, fold_loop, fold_finish, sort_tries, fold_event, fold_known, fold_numbered,
  insert_try, touch, update_try,
}
use hedloom.Journal.Disk.{
  events_of, layout_check, parse_lines, raw_lines, fold_disk, manifest_of, standing_of, append_line,
  created_record,
}
use hedloom.Journal.Store.{claim, release, require_layout, create_record, append}
use hedloom.Prune.Units.{duration, size, measure, counted}
use hedloom.Prune.Workspace.{workspace_bytes, remove_workspace}
use hedloom.Prune.Survey.Newest.{rank, newest_first, insert_number}
use hedloom.Prune.Survey.{
  survey, survey_records, verdict, verdicts, survey_record, measured_verdict, select_rule,
  rule_measures,
}
use hedloom.Prune.Apply.{Records, PruneReport, clear, apply_one, apply_from}
use hedloom.Prune.Report.{total, no_report, report_adds_up}
use hedloom.Prune.Examples.{spent_disk, site, policy, older}

abbrev path : String → ℕ → String
path identity n = "/work/r-0"

abbrev records : Records
records = record { disk = λ i. spent_disk; lock_free = λ i. true; now = "t"; site = site }

abbrev applied : Result PruneReport × Records
applied = apply_from policy path none none (older ∷ []) no_report records

abbrev report_read : Result PruneReport → PruneReport
report_read (ok r) = r
report_read (err e) = no_report

record Runs : Type 0 where
  reported : applied ≡ (ok (report_read applied.0), applied.1)
  freed : (report_read applied.0).freed_bytes ≡ 32

runs : Runs
unfolding apply_from apply_one clear survey survey_records events_of layout_check parse_lines
    raw_lines fold_disk manifest_of standing_of fold_events fold_loop fold_finish sort_tries
    fold_event fold_known fold_numbered insert_try touch update_try duration size measure counted
    workspace_bytes remove_workspace rank newest_first insert_number verdict verdicts survey_record
    measured_verdict select_rule rule_measures claim release require_layout create_record append
    ◌>>=◌ gets write modify lift durable now pure raise append_line created_record
runs = record { reported = refl; freed = refl }

report_adds_up_example :
    ((report_read applied.0).freed_bytes ≡ total (report_read applied.0).removed_candidates)
    × ((report_read applied.0).stopped_at_limit ≡ false
        → length (report_read applied.0).removed_candidates + length (report_read applied.0).skips
          ≡ length (older ∷ []))
report_adds_up_example =
    report_adds_up policy path none none (older ∷ []) records applied.1 (report_read applied.0)
      runs.reported
