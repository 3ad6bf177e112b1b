-- ===== src/Protocol/Shown.antt =====
-- What a healthy record shows its readers: `events`, `fold` and `snapshot` of journal.py succeed and
-- agree, with the directory there or not yet there.
use hedloom.Base.{
  ℕ, suc, ◌≡◌, refl, true, false, Option, List, [], ◌∷◌, map, All, inl, inr, arith, Bool,
  if◌then◌else◌,
}
use hedloom.Result.{Result, ok, err, guard, ◌>>=?◌, no_log_file}
use hedloom.Journal.Types.{JournalEvent, AttemptState, is_known}
use hedloom.Journal.Fold.{Folding, nothing_folded, fold_loop, fold_events}
use hedloom.Journal.Fold.Sorting.{state_of, fold_finish-ok}
use hedloom.Journal.World.{event_line, Disk}
use hedloom.Journal.Disk.{
  layout_check, raw_lines, parse_lines, events_of, fold_disk, snapshot_lines, snapshot, has_log,
  is_written,
}
use hedloom.Journal.Ledger.{Ledger}
use hedloom.Journal.Sound.{
  Intact, Sequential, events_of-Intact, layout_check-Intact, fold_disk-Intact, outcomes_known,
}
use hedloom.Journal.Sound.Claim.{Healthy, Missing, Ledger-Missing}

-- What a snapshot gives: this state and nothing left out, or no log file.
abbrev pub snapshot_of : AttemptState → Disk → Result (AttemptState × Bool)
snapshot_of st d = if has_log d then ok (st, false) else err no_log_file

pub record Shown (d : Disk) (subs : List ℕ) : Type 0 where
  pub log : List JournalEvent
  pub view : Folding
  pub lines : d.lines ≡ map event_line log
  pub laid : layout_check d ≡ ok tt
  pub read : events_of d ≡ ok log
  pub folded : fold_disk d ≡ ok (state_of log view)
  pub snapped : snapshot d ≡ snapshot_of (state_of log view) d
  pub ledger : Ledger d.manifest d.standing view.tries log subs

snapshot_lines-map :
    (i : ℕ) (log : List JournalEvent)
    → Sequential i log
    → All (λ e. is_known e.event ≡ true) log
    → snapshot_lines i (map event_line log) ≡ ok log
unfolding snapshot_lines
snapshot_lines-map i [] s k = refl
snapshot_lines-map i (e ∷ log) s k =
    let rest = snapshot_lines-map (suc i) log s.1 k.1 in ground (arith, rest, s.0, k.0)

fold_events-Intact :
    {d : Disk} {next : Option ℕ} {subs : List ℕ} (s : Intact d next subs)
    → fold_events s.log ≡ ok (state_of s.log s.view)
unfolding fold_events
fold_events-Intact s = rw s.folds (fold_finish-ok s.log s.view (outcomes_known s))

snapshot-Intact :
    {d : Disk} {next : Option ℕ} {subs : List ℕ} (s : Intact d next subs)
    → snapshot d ≡ snapshot_of (state_of s.log s.view) d
unfolding snapshot
snapshot-Intact s =
    rw
      (
        layout_check-Intact s,
        s.lines,
        s.whole,
        snapshot_lines-map 0 s.log s.sequential s.familiar,
        fold_events-Intact s,
      )
      (guarded (is_written (map event_line s.log)) (state_of s.log s.view))
  where
    found : AttemptState → Result (AttemptState × Bool)
    found st = ok (st, false)

    guarded :
        (b : Bool) (st : AttemptState)
        → (guard b no_log_file >>=? (λ (u : Unit {0}). found st))
          ≡ (if b then ok (st, false) else err no_log_file)
    guarded true st = refl
    guarded false st = refl

Shown-Intact : {d : Disk} {next : Option ℕ} {subs : List ℕ} → Intact d next subs → Shown d subs
Shown-Intact s = record {
  log = s.log;
  view = s.view;
  lines = s.lines;
  laid = layout_check-Intact s;
  read = events_of-Intact s;
  folded = fold_disk-Intact s;
  snapped = snapshot-Intact s;
  ledger = s.ledger;
}

fold_events-nothing : fold_events [] ≡ ok (state_of [] nothing_folded)
unfolding fold_events fold_loop
fold_events-nothing = fold_finish-ok [] nothing_folded tt

Shown-Missing : {d : Disk} {next : Option ℕ} {subs : List ℕ} → Missing d next subs → Shown d subs
unfolding layout_check events_of raw_lines parse_lines fold_disk snapshot snapshot_lines
Shown-Missing m = record {
  log = [];
  view = nothing_folded;
  lines = m.lines;
  laid = rw m.gone refl;
  read = rw (m.gone, m.lines, m.whole) refl;
  folded = rw (m.gone, m.lines, m.whole) fold_events-nothing;
  snapped = rw (m.gone, m.lines, m.whole) refl;
  ledger = Ledger-Missing m;
}

-- A healthy record folds, and its snapshot is the fold.
pub Healthy-Shown :
    (d : Disk) (next : Option ℕ) (subs : List ℕ) → Healthy d next subs → Shown d subs
Healthy-Shown d next subs (inl s) = Shown-Intact s
Healthy-Shown d next subs (inr m) = Shown-Missing m
