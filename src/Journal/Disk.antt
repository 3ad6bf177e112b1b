-- ===== src/Journal/Disk.antt =====
-- What the methods of `AttemptJournal` in journal.py read from the record's directory and write to it.
use hedloom.Base.{
  ℕ, suc, ◌+◌, String, Bool, true, false, Option, none, some, List, [], ◌∷◌, ◌++◌, length, keep,
  ◌==◌, ◌||◌, is_some, if◌then◌else◌,
}
use hedloom.Json.{Json, nat, str, obj, Fields, end, field}
use hedloom.Result.{
  Result, ok, err, ◌>>=?◌, guard, no_layout, unreadable_layout, unsupported_layout, malformed_line,
  invalid_line, sequence_gap, unreadable_manifest, no_log_file,
}
use hedloom.Journal.Types.{JournalEvent, is_known, unsubmitted, TryState, AttemptState}
use hedloom.Journal.Fold.{fold_events}
use hedloom.Journal.World.{
  LayoutFile, Line, blank, garbage, shapeless, event_line, Document, unreadable_text, document,
  Disk,
}

abbrev pub layout_version : ℕ
layout_version = 1

-- `_require_layout`
unfoldable pub layout_check : Disk → Result (Unit {0})
layout_check d =
    if d.exists
    then elim d.layout [
      | LayoutFile.absent ↦ err no_layout
      | LayoutFile.unreadable ↦ err unreadable_layout
      | LayoutFile.version v ↦ if v == layout_version then ok tt else err unsupported_layout
    ]
    else ok tt

-- `_raw_lines`: the lines that are not blank, an unfinished one included.
abbrev is_text : Line → Bool
is_text blank = false
is_text _ = true

abbrev tail_lines : Option Line → List Line
tail_lines none = []
tail_lines (some l) = l ∷ []

unfoldable pub raw_lines : Disk → List Line
raw_lines d = keep is_text (d.lines ++ tail_lines d.tail)

abbrev parse_line : Line → Result JournalEvent
parse_line blank = err malformed_line
parse_line garbage = err malformed_line
parse_line shapeless = err invalid_line
parse_line (event_line e) = ok e

unfoldable pub parse_lines : List Line → Result (List JournalEvent)
parse_lines [] = ok []
parse_lines (l ∷ ls) = parse_line l >>=? λ e. parse_lines ls >>=? λ es. ok (e ∷ es)

-- `events`
unfoldable pub events_of : Disk → Result (List JournalEvent)
unfolding parse_lines raw_lines
events_of d = layout_check d >>=? λ _. parse_lines (raw_lines d)

-- `fold`, of what is on disk
unfoldable pub fold_disk : Disk → Result AttemptState
fold_disk d = events_of d >>=? fold_events

-- The loop of `snapshot`: the sequence numbers are checked here, and a blank line is no JSON.
unfoldable pub snapshot_lines : ℕ → List Line → Result (List JournalEvent)
snapshot_lines i [] = ok []
snapshot_lines i (event_line e ∷ ls) =
    if e.seq == i
    then (guard (is_known e.event) malformed_line >>=? λ _.
        snapshot_lines (suc i) ls >>=? λ es. ok (e ∷ es))
    else err sequence_gap
snapshot_lines i (_ ∷ ls) = err malformed_line

-- The log file is made with its first line.
abbrev pub is_written : List Line → Bool
is_written [] = false
is_written (l ∷ ls) = true

abbrev pub has_log : Disk → Bool
has_log d = is_some d.tail || is_written d.lines

-- `snapshot`: the state, and whether an unfinished last line was left out.
unfoldable pub snapshot : Disk → Result (AttemptState × Bool)
snapshot d = layout_check d >>=? λ _. guard (has_log d) no_log_file >>=? λ _.
    snapshot_lines 0 d.lines >>=? λ es. fold_events es >>=? λ s. ok (s, is_some d.tail)

-- `read_manifest` of one try, and of the standing result
abbrev pub read_document : Option Document → Result (Option Fields)
read_document none = ok none
read_document (some unreadable_text) = err unreadable_manifest
read_document (some (document fs)) = ok (some fs)

unfoldable pub manifest_of : ℕ → Disk → Result (Option Fields)
manifest_of n d = layout_check d >>=? λ _. read_document (d.manifest n)

unfoldable pub standing_of : Disk → Result (Option Fields)
standing_of d = layout_check d >>=? λ _. read_document d.standing

-- What the disk operations write.
abbrev pub append_to : Option Line → Line → List Line → List Line
append_to none l ls = ls ++ l ∷ []
append_to (some blank) l ls = ls ++ l ∷ []
append_to (some _) l ls = ls ++ garbage ∷ []

unfoldable pub append_line : JournalEvent → Disk → Disk
append_line e d = record d { lines = append_to d.tail (event_line e) d.lines; tail = none }

unfoldable pub set_manifest : ℕ → Fields → Disk → Disk
set_manifest n doc d = record d {
  manifest = λ m. if m == n then some (document doc) else d.manifest m;
}

unfoldable pub set_standing : Fields → Disk → Disk
set_standing doc d = record d { standing = some (document doc) }

unfoldable pub created_record : Disk → Disk
created_record d = record d { exists = true; layout = LayoutFile.version layout_version }

-- `_next_seq`, counted once per journal instance
abbrev pub sequence : Option ℕ → Disk → ℕ
sequence (some k) d = k
sequence none d = length (raw_lines d)

abbrev pub try_only : ℕ → Fields
try_only n = field "try" (nat n) end

abbrev pub next_number : Option TryState → ℕ
next_number none = 0
next_number (some t) = t.number + 1

-- An allocated try that was never submitted is resumed.
abbrev pub resumable : Option TryState → Bool
resumable none = false
resumable (some t) = elim t.phase [ unsubmitted ↦ true | _ ↦ false ]

abbrev pub outcome_document : String → ℕ → String → String → Fields → Fields
outcome_document identity n outcome at manifest = field "attempt" (str identity) (
    field "try" (nat n) (
      field "outcome" (str outcome)
        (field "published_at" (str at) (field "result" (obj manifest) end))))

abbrev pub terminal_args : ℕ → Json → String → Fields
terminal_args n outcome path =
    field "try" (nat n) (field "outcome" outcome (field "manifest" (str path) end))
