-- ===== src/Journal/Sound.antt =====
-- The invariant of a record's directory, `IsSound`: the log is a whole sequence of numbered events
-- that folds, and what it folds to keeps the `Ledger` with the manifests, the standing result and
-- the submissions.
pub mod Append
pub mod Phases
pub mod Begin
pub mod Claim
pub mod Publish
pub mod Seen
pub mod Submit
use hedloom.Base.{
  ℕ, zero, suc, ◌+◌, ◌≡◌, refl, Bool, true, false, Option, none, some, List, [], ◌∷◌, ◌++◌, length,
  length-append, map, keep, ap, ◌∙◌, append-nil, arith, All, All-map, if◌then◌else◌, Option-cases,
  inl, inr,
}
use hedloom.Result.{Result, ok, err, ◌>>=?◌}
use hedloom.Journal.Types.{is_known, JournalEvent, TryState, AttemptState}
use hedloom.Journal.Fold.{Folding, nothing_folded, fold_loop, fold_events, outcome_known}
use hedloom.Journal.Fold.Sorting.{state_of, fold_finish-ok}
use hedloom.Journal.World.{LayoutFile, Line, blank, event_line, Document, Disk, World, Exec}
use hedloom.Journal.Disk.{
  layout_version, layout_check, raw_lines, parse_lines, events_of, fold_disk, sequence,
}
use hedloom.Journal.Ledger.{Ledger, IsBacked}

-- The events are numbered from `i` on.
abbrev pub Sequential : ℕ → List JournalEvent → Type 0
Sequential i [] = Unit
Sequential i (e ∷ es) = (e.seq ≡ i) × Sequential (suc i) es

-- The number that an instance keeps for its next event is the log's length.
abbrev pub Cached : Option ℕ → ℕ → Type 0
Cached none n = Unit
Cached (some k) n = k ≡ n

pub record Intact (disk : Disk) (next_seq : Option ℕ) (submissions : List ℕ) : Type 0 where
  pub log : List JournalEvent
  pub view : Folding
  pub folds : fold_loop nothing_folded log ≡ ok view
  pub lines : disk.lines ≡ map event_line log
  pub whole : disk.tail ≡ none
  pub made : disk.exists ≡ true
  pub laid : disk.layout ≡ LayoutFile.version layout_version
  pub cached : Cached next_seq (length log)
  pub sequential : Sequential 0 log
  pub familiar : All (λ e. is_known e.event ≡ true) log
  pub ledger : Ledger disk.manifest disk.standing view.tries log submissions

abbrev pub IsSound : {S : Type 0} → World S → Type 0
IsSound w = Intact w.disk w.next_seq w.submissions

pub Sequential-snoc :
    (i : ℕ) (log : List JournalEvent) (e : JournalEvent)
    → Sequential i log
    → e.seq ≡ i + length log
    → Sequential i (log ++ e ∷ [])
Sequential-snoc i [] e h s = (omega arith, tt)
Sequential-snoc i (x ∷ log) e h s = (h.0, Sequential-snoc (suc i) log e h.1 (omega arith))

pub map-snoc :
    (log : List JournalEvent) (e : JournalEvent)
    → map event_line log ++ event_line e ∷ [] ≡ map event_line (log ++ e ∷ [])
map-snoc [] e = refl
map-snoc (x ∷ log) e = ap (λ ls. event_line x ∷ ls) (map-snoc log e)

parse_lines-map : (log : List JournalEvent) → parse_lines (map event_line log) ≡ ok log
unfolding parse_lines
parse_lines-map [] = refl
parse_lines-map (e ∷ log) = rw (parse_lines-map log)

raw_lines-events :
    (d : Disk) (log : List JournalEvent)
    → d.lines ≡ map event_line log
    → d.tail ≡ none
    → raw_lines d ≡ map event_line log
unfolding raw_lines
raw_lines-events d log h k = rw (h, k) (go log)
  where
    go :
        (es : List JournalEvent)
        → raw_lines (record d { lines = map event_line es; tail = none }) ≡ map event_line es
    go [] = refl
    go (e ∷ es) = ap (λ ls. event_line e ∷ ls) (go es)

length-map : (log : List JournalEvent) → length (map event_line log) ≡ length log
length-map [] = refl
length-map (e ∷ log) = ap suc (length-map log)

module _ {d : Disk} {next_seq : Option ℕ} {submissions : List ℕ}
    (s : Intact d next_seq submissions) where
  pub layout_check-Intact : layout_check d ≡ ok tt
  unfolding layout_check
  layout_check-Intact = rw (s.made, s.laid)

  raw_lines-Intact : raw_lines d ≡ map event_line s.log
  raw_lines-Intact = raw_lines-events d s.log s.lines s.whole

  pub events_of-Intact : events_of d ≡ ok s.log
  unfolding events_of
  events_of-Intact = rw (layout_check-Intact, raw_lines-Intact) (parse_lines-map s.log)

  pub outcomes_known : All (λ t. outcome_known t ≡ true) s.view.tries
  outcomes_known =
      All-map (IsBacked d.manifest) (λ t. outcome_known t ≡ true) (λ t b. b.outcome) s.view.tries
        s.ledger.backed

  -- A sound record always folds.
  pub fold_disk-Intact : fold_disk d ≡ ok (state_of s.log s.view)
  unfolding fold_disk fold_events
  fold_disk-Intact = rw (events_of-Intact, s.folds) (fold_finish-ok s.log s.view outcomes_known)

  pub sequence-Intact : sequence next_seq d ≡ length s.log
  sequence-Intact = elim (Option-cases next_seq) [
    | inl e ↦ rw e (rw raw_lines-Intact (length-map s.log))
    | inr (k, e) ↦ rw e (rw e at s.cached)
  ]
