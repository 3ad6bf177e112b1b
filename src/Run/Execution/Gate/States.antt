-- ===== src/Run/Execution/Gate/States.antt =====
-- What each method of a dispatch reference leaves in the state file.
use hedloom.Base.{String, Bool, true, false, ◌≡◌, refl, ap}
use hedloom.Run.Execution.{
  Directory, Reply, returns, execution_error, type_error, Admission, ready, entered, cancelled,
  finished, state, create, write_state, interrupting,
}
use hedloom.Run.Execution.Selections.{Selection, publish_selection}
use hedloom.Json.{str, field, end}
use hedloom.Run.Execution.{link, admission_in, read_document}
use hedloom.Run.Execution.Selections.{common, with_workspace, after_selection}

pub state-write_state : (a : Admission) (d : Directory) → state (write_state a d) ≡ returns a
unfolding state
state-write_state ready d = refl
state-write_state entered d = refl
state-write_state cancelled d = refl
state-write_state finished d = refl

pub state-create : (identifier : String) → state (create identifier) ≡ returns ready
unfolding state create
state-create identifier = refl

pub state-request_interrupt :
    (d : Directory) (a : Admission) → state (interrupting d (returns a)).0 ≡ state d
unfolding state
state-request_interrupt d ready = refl
state-request_interrupt d entered = refl
state-request_interrupt d cancelled = refl
state-request_interrupt d finished = refl

with_workspace-state :
    (identifier at : String) (s : Selection) (b : Bool) (d : Directory)
    → (with_workspace identifier at s b d).0.state ≡ d.state
with_workspace-state identifier at s true d = refl
with_workspace-state identifier at s false d = refl

after_selection-state :
    (identifier at : String) (s : Selection) (d : Directory) (r : Reply (Unit {0}))
    → (after_selection identifier at s d r).0.state ≡ d.state
after_selection-state identifier at s d (returns u) =
    with_workspace-state identifier at s s.workspace_known d
after_selection-state identifier at s d execution_error = refl
after_selection-state identifier at s d type_error = refl

pub state-publish_selection :
    (identifier at : String) (s : Selection) (d : Directory)
    → state (publish_selection identifier at s d).0 ≡ state d
unfolding publish_selection state
state-publish_selection identifier at s d =
    ap (λ f. admission_in (read_document f))
      (after_selection-state identifier at s
        (record d {
          selection =
              (link d.selection
                (common identifier at s (field "disposition" (str s.disposition) end))).0;
        })
        _)
