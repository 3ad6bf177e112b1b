-- ===== src/Run/Execution/Gate.antt =====
-- The life of a dispatch reference, and what its gate promises: calls of its methods by any processes, one
-- after the other under the lock, with callers that are killed before they hear the answer.
pub mod States
pub mod Kept
pub mod Promises
use hedloom.Base.{
  ℕ, zero, suc, ◌≤◌, ◌+◌, String, Bool, true, false, ◌||◌, ◌≡◌, refl, sym, ap, subst, ◌∙◌, List, [],
  ◌∷◌, arith, if◌then◌else◌, count, any,
}
use hedloom.Run.Execution.{
  Directory, Reply, returns, execution_error, type_error, Admission, ready, entered, cancelled,
  finished, state, create, write_state, said, entering, cancelling, finishing, interrupting, enter,
  cancel_before_start, finish, request_interrupt, Method,
}
use hedloom.Run.Execution.Selections.{Selection, publish_selection}

-- The calls of the methods that change the directory.
pub data Call : Type 0 where
  entry cancellation completion interruption : Call
  publication : String → Selection → Call

abbrev pub unit_said : Directory × Reply (Unit {0}) → Directory × Reply Bool
unit_said r = (r.0, said true r.1)

unfoldable pub perform : String → Call → Method Bool
perform identifier entry d = enter d
perform identifier cancellation d = cancel_before_start d
perform identifier completion d = unit_said (finish d)
perform identifier interruption d = request_interrupt d
perform identifier (publication at s) d = unit_said (publish_selection identifier at s d)

unfoldable pub perform_all : String → List Call → Directory → Directory
unfolding perform
perform_all identifier [] d = d
perform_all identifier (c ∷ cs) d = perform_all identifier cs (perform identifier c d).0

-- A call and the answer that its caller hears; a caller that is killed hears none.
pub record Event : Type 0 where
  pub call : Call
  pub heard : Bool
  pub reply : Reply Bool

-- The lives of the reference that `create` makes, with their events, the last one first. A caller that is
-- killed before the write of its method takes no step.
pub data Life (identifier : String) : Directory → List Event → Type 0 where
  created : Life identifier (create identifier) []
  called :
      {d : Directory} {es : List Event}
      → Life identifier d es
      → (c : Call) (heard : Bool)
      → Life identifier
          (perform identifier c d).0
          (record { call = c; heard = heard; reply = (perform identifier c d).1 } ∷ es)

abbrev pub said_true : Reply Bool → Bool
said_true (returns b) = b
said_true execution_error = false
said_true type_error = false

abbrev pub is_entry : Call → Bool
is_entry entry = true
is_entry _ = false

abbrev pub is_cancellation : Call → Bool
is_cancellation cancellation = true
is_cancellation _ = false

abbrev pub heard_true : Event → Bool
heard_true e = if e.heard then said_true e.reply else false

-- `enter` has told its caller to execute.
abbrev pub admits : Event → Bool
admits e = if is_entry e.call then heard_true e else false

-- `cancel_before_start` has told its caller that nothing will be executed.
abbrev pub confirms : Event → Bool
confirms e = if is_cancellation e.call then heard_true e else false

-- What has been told, by the state of admission.
abbrev pub Told : Admission → List Event → Type 0
Told ready es = (count admits es ≡ 0) × (any confirms es ≡ false)
Told cancelled es = count admits es ≡ 0
Told entered es = (count admits es ≤ 1) × (any confirms es ≡ false)
Told finished es = (count admits es ≤ 1) × (any confirms es ≡ false)

pub record Truthful (d : Directory) (es : List Event) : Type 0 where
  pub admission : Admission
  pub state_is : state d ≡ returns admission
  pub told : Told admission es
