-- ===== src/Run/Worker/Examples.antt =====
-- A reference that is entered while somebody tries to cancel it, and one that is withdrawn in time.
use hedloom.Base.{String, true, false, none, ◌≡◌, refl, [], ◌∷◌}
use hedloom.Json.{null}
use hedloom.Run.Binding.Examples.{planned}
use hedloom.Run.Execution.{
  Directory, returns, ready, cancelled, finished, state, create, write_state,
}
use hedloom.Run.Execution.Gate.{cancellation, interruption, publication, perform_all}
use hedloom.Run.Execution.Selections.{Selection}
use hedloom.Run.Worker.{Step, Work, stepped, blocked, run_handle}
use hedloom.Run.Worker.Dispatch.{dispatched_work_is_closed, withdrawn_work_is_blocked}

abbrev selected : Selection
selected = record {
  record_name = "record";
  try_number = 1;
  disposition = "claimed";
  workspace_known = true;
  workspace = null;
}

abbrev done : Step
done = record (blocked planned) {
  outcome = record (blocked planned).outcome {
    disposition = "claimed";
    outcome = "succeeded";
    block_reason = none;
  };
}

abbrev unreadable : Directory → String
unreadable d = "invalid execution admission state"

abbrev work : Work
work = record {
  calls = publication "now" selected ∷ cancellation ∷ interruption ∷ [];
  ending = stepped done;
}

created-ready : state (create "x") ≡ returns ready
unfolding state create
created-ready = refl

abbrev withdrawn : Directory
withdrawn = write_state cancelled (create "x")

withdrawn-cancelled : state withdrawn ≡ returns cancelled
unfolding state create
withdrawn-cancelled = refl

dispatched_work_is_closed_example :
    ((run_handle unreadable "x" planned work (create "x")).executed ≡ true)
    × ((run_handle unreadable "x" planned work (create "x")).ending ≡ stepped done)
    × (state (run_handle unreadable "x" planned work (create "x")).directory ≡ returns finished)
dispatched_work_is_closed_example =
    dispatched_work_is_closed unreadable "x" planned work (create "x") created-ready

withdrawn_work_is_blocked_example :
    let after = perform_all "x" (interruption ∷ []) withdrawn in
    run_handle unreadable "x" planned work after
    ≡ record { directory = after; ending = stepped (blocked planned); executed = false }
withdrawn_work_is_blocked_example =
    withdrawn_work_is_blocked unreadable "x" planned work (interruption ∷ []) withdrawn
      withdrawn-cancelled
