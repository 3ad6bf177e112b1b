-- ===== src/Run/Execution/Examples.antt =====
-- One reference: a first caller enters, a second is refused, and a cancellation comes too late; another one
-- is cancelled before a worker comes.
use hedloom.Base.{◌≤◌, true, false, ◌≡◌, refl, List, [], ◌∷◌, count, any}
use hedloom.Json.{Json}
use hedloom.Run.Execution.{File, Directory, state, create, enter, cancel_before_start}
use hedloom.Run.Execution.Evidence.{Compared, selection_is_settled}
use hedloom.Run.Execution.Gate.{
  Call, Life, created, called, perform, perform_all, Event, entry, cancellation, publication,
  admits, confirms,
}
use hedloom.Run.Execution.Gate.Promises.{enters_at_most_once, cancelled_never_enters}
use hedloom.Run.Execution.Selections.{Selection, publish_selection}

-- The directory and the events after these calls, the last one first, all of whose answers are heard.
history : List Call → Directory × List Event
history [] = (create "x", [])
history (c ∷ cs) =
    let h = history cs in
    ((perform "x" c h.0).0, record { call = c; heard = true; reply = (perform "x" c h.0).1 } ∷ h.1)

lives : (cs : List Call) → Life "x" (history cs).0 (history cs).1
unfolding history
lives [] = created
lives (c ∷ cs) = called (lives cs) c true

abbrev contested : List Call
contested = cancellation ∷ entry ∷ entry ∷ []

abbrev withdrawn : List Call
withdrawn = entry ∷ cancellation ∷ []

enters_at_most_once_example : count admits (history contested).1 ≤ 1
enters_at_most_once_example = enters_at_most_once (lives contested)

-- The bound is met.
entered_once : count admits (history contested).1 ≡ 1
unfolding history perform enter cancel_before_start state create
entered_once = refl

withdrawn-confirmed : any confirms (history withdrawn).1 ≡ true
unfolding history perform enter cancel_before_start state create
withdrawn-confirmed = refl

cancelled_never_enters_example : count admits (history withdrawn).1 ≡ 0
cancelled_never_enters_example = cancelled_never_enters (lives withdrawn) withdrawn-confirmed

abbrev first_try : Selection
first_try = record {
  record_name = "r";
  try_number = 0;
  disposition = "claimed";
  workspace_known = false;
  workspace = Json.null;
}

abbrev second_try : Selection
second_try = record {
  record_name = "r";
  try_number = 1;
  disposition = "claimed";
  workspace_known = false;
  workspace = Json.null;
}

created-absent : (create "x").selection ≡ File.absent
unfolding create
created-absent = refl

abbrev published : Directory
published = (publish_selection "x" "t0" first_try (create "x")).0

selection_is_settled_example :
    let after = perform_all "x" (publication "t1" second_try ∷ entry ∷ []) published in
    (after.selection ≡ published.selection) × Compared "x" "t2" first_try second_try after
selection_is_settled_example =
    selection_is_settled "x" "t0" "t2" first_try second_try
      (publication "t1" second_try ∷ entry ∷ []) (create "x") created-absent
