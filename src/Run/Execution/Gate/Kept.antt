-- ===== src/Run/Execution/Gate/Kept.antt =====
-- Each call of a dispatch reference keeps what its callers have been told true.
use hedloom.Base.{
  suc, ◌≤◌, String, Bool, true, false, ◌||◌, ◌≡◌, refl, sym, ap, subst, ◌∙◌, List, [], ◌∷◌, arith,
  if◌then◌else◌, count, any,
}
use hedloom.Run.Execution.{
  Directory, Reply, returns, execution_error, Admission, ready, entered, cancelled, finished, state,
  create, entering, cancelling, finishing, interrupting, enter, cancel_before_start, finish,
  request_interrupt,
}
use hedloom.Run.Execution.Selections.{publish_selection}
use hedloom.Run.Execution.Gate.States.{
  state-write_state, state-create, state-request_interrupt, state-publish_selection,
}
use hedloom.Run.Execution.Gate.{
  Call, entry, cancellation, completion, interruption, publication, unit_said, perform, Event,
  admits, confirms, Told, Truthful,
}

-- What has been told stays true when a call tells nothing.
quiet :
    (a : Admission) (c : Call) (heard : Bool) (r : Reply Bool) (es : List Event)
    → admits (record { call = c; heard = heard; reply = r }) ≡ false
    → confirms (record { call = c; heard = heard; reply = r }) ≡ false
    → Told a es
    → Told a (record { call = c; heard = heard; reply = r } ∷ es)
quiet ready c heard r es p q h = (
  ap (λ b. if b then suc (count admits es) else count admits es) p ∙ h.0,
  ap (λ b. b || any confirms es) q ∙ h.1,
)
quiet cancelled c heard r es p q h =
    ap (λ b. if b then suc (count admits es) else count admits es) p ∙ h
quiet entered c heard r es p q h = (
  subst (λ b. (if b then suc (count admits es) else count admits es) ≤ 1) (sym p) h.0,
  ap (λ b. b || any confirms es) q ∙ h.1,
)
quiet finished c heard r es p q h = (
  subst (λ b. (if b then suc (count admits es) else count admits es) ≤ 1) (sym p) h.0,
  ap (λ b. b || any confirms es) q ∙ h.1,
)

-- The directory and the events after a call with this outcome.
After : Call → Bool → List Event → Directory × Reply Bool → Type 0
After c heard es r = Truthful r.0 (record { call = c; heard = heard; reply = r.1 } ∷ es)

-- A call that leaves the state file alone and tells nothing.
unchanged :
    (c : Call) (heard : Bool) (d : Directory) (es : List Event) (r : Directory × Reply Bool)
    → state r.0 ≡ state d
    → admits (record { call = c; heard = heard; reply = r.1 }) ≡ false
    → confirms (record { call = c; heard = heard; reply = r.1 }) ≡ false
    → Truthful d es
    → After c heard es r
unfolding After
unchanged c heard d es r e p q k = record {
  admission = k.admission;
  state_is = e ∙ k.state_is;
  told = quiet k.admission c heard r.1 es p q k.told;
}

refused : (b : Bool) → admits (record { call = entry; heard = b; reply = execution_error }) ≡ false
refused true = refl
refused false = refl

unconfirmed :
    (b : Bool) → confirms (record { call = cancellation; heard = b; reply = returns false }) ≡ false
unconfirmed true = refl
unconfirmed false = refl

after_entry :
    (a : Admission) (heard : Bool) (d : Directory) (es : List Event)
    → state d ≡ returns a
    → Told a es
    → After entry heard es (entering d (returns a))
unfolding After
after_entry ready true d es e t = record {
  admission = entered;
  state_is = state-write_state entered d;
  told = (omega (arith, t.0), t.1);
}
after_entry ready false d es e t = record {
  admission = entered;
  state_is = state-write_state entered d;
  told = (omega (arith, t.0), t.1);
}
after_entry cancelled heard d es e t =
    unchanged entry heard d es (d, returns false) refl (never heard) refl
      (record { admission = cancelled; state_is = e; told = t })
  where
    never : (b : Bool) → admits (record { call = entry; heard = b; reply = returns false }) ≡ false
    never true = refl
    never false = refl
after_entry entered heard d es e t =
    unchanged entry heard d es (d, execution_error) refl (refused heard) refl
      (record { admission = entered; state_is = e; told = t })
after_entry finished heard d es e t =
    unchanged entry heard d es (d, execution_error) refl (refused heard) refl
      (record { admission = finished; state_is = e; told = t })

after_cancellation :
    (a : Admission) (heard : Bool) (d : Directory) (es : List Event)
    → state d ≡ returns a
    → Told a es
    → After cancellation heard es (cancelling d (returns a))
unfolding After
after_cancellation ready heard d es e t = record {
  admission = cancelled;
  state_is = state-write_state cancelled d;
  told = t.0;
}
after_cancellation cancelled heard d es e t = record {
  admission = cancelled;
  state_is = e;
  told = t;
}
after_cancellation entered heard d es e t =
    unchanged cancellation heard d es (d, returns false) refl refl (unconfirmed heard)
      (record { admission = entered; state_is = e; told = t })
after_cancellation finished heard d es e t =
    unchanged cancellation heard d es (d, returns false) refl refl (unconfirmed heard)
      (record { admission = finished; state_is = e; told = t })

after_completion :
    (a : Admission) (heard : Bool) (d : Directory) (es : List Event)
    → state d ≡ returns a
    → Told a es
    → After completion heard es (unit_said (finishing d (returns a)))
unfolding After
after_completion entered heard d es e t = record {
  admission = finished;
  state_is = state-write_state finished d;
  told = t;
}
after_completion ready heard d es e t = record { admission = ready; state_is = e; told = t }
after_completion cancelled heard d es e t = record { admission = cancelled; state_is = e; told = t }
after_completion finished heard d es e t = record { admission = finished; state_is = e; told = t }

-- Every call keeps what has been told true.
pub perform-Truthful :
    (identifier : String) (c : Call) (heard : Bool) (d : Directory) (es : List Event)
    → Truthful d es
    → Truthful
        (perform identifier c d).0
        (record { call = c; heard = heard; reply = (perform identifier c d).1 } ∷ es)
unfolding perform enter cancel_before_start finish request_interrupt After
perform-Truthful identifier entry heard d es k =
    subst (λ r. After entry heard es (entering d r)) (sym k.state_is)
      (after_entry k.admission heard d es k.state_is k.told)
perform-Truthful identifier cancellation heard d es k =
    subst (λ r. After cancellation heard es (cancelling d r)) (sym k.state_is)
      (after_cancellation k.admission heard d es k.state_is k.told)
perform-Truthful identifier completion heard d es k =
    subst (λ r. After completion heard es (unit_said (finishing d r))) (sym k.state_is)
      (after_completion k.admission heard d es k.state_is k.told)
perform-Truthful identifier interruption heard d es k =
    subst (λ r. After interruption heard es (interrupting d r)) (sym k.state_is)
      (unchanged interruption heard d es (interrupting d (returns k.admission))
        (state-request_interrupt d k.admission) refl refl k)
perform-Truthful identifier (publication at s) heard d es k =
    unchanged (publication at s) heard d es (unit_said (publish_selection identifier at s d))
      (state-publish_selection identifier at s d) refl refl k

pub created-Truthful : (identifier : String) → Truthful (create identifier) []
created-Truthful identifier = record {
  admission = ready;
  state_is = state-create identifier;
  told = (refl, refl);
}
