-- ===== src/Run/Worker/Dispatch.antt =====
-- What a worker does with a dispatch reference, whatever is called meanwhile.
use hedloom.Base.{String, true, false, ◌≡◌, refl, sym, ap, subst, ◌∙◌, List, [], ◌∷◌}
use hedloom.Run.Execution.{
  Directory, Reply, returns, Admission, ready, entered, cancelled, finished, state, write_state,
  entering, cancelling, finishing, interrupting, enter, cancel_before_start, finish,
  request_interrupt,
}
use hedloom.Run.Execution.Gate.{
  Call, entry, cancellation, completion, interruption, publication, perform, perform_all,
}
use hedloom.Run.Execution.Gate.States.{
  state-write_state, state-request_interrupt, state-publish_selection,
}
use hedloom.Run.Binding.{Planned}
use hedloom.Run.Worker.{
  Work, Ending, stepped, raised, blocked, ended, close, after_entry, run_handle,
}

-- Work that has been entered, and what has been finished.
data IsPast : Reply Admission → Type 0 where
  under_way : IsPast (returns entered)
  over : IsPast (returns finished)

-- What a method does where the state is past entry.
entering-IsPast : (d : Directory) {r : Reply Admission} → IsPast r → (entering d r).0 ≡ d
entering-IsPast d under_way = refl
entering-IsPast d over = refl

cancelling-IsPast : (d : Directory) {r : Reply Admission} → IsPast r → (cancelling d r).0 ≡ d
cancelling-IsPast d under_way = refl
cancelling-IsPast d over = refl

finishing-IsPast :
    (d : Directory) {r : Reply Admission}
    → state d ≡ r
    → IsPast r
    → (state (finishing d r).0 ≡ returns finished) × ((finishing d r).1 ≡ returns tt)
finishing-IsPast d e under_way = (state-write_state finished d, refl)
finishing-IsPast d e over = (e, refl)

interrupting-IsPast :
    (d : Directory) {r : Reply Admission} → IsPast r → state (interrupting d r).0 ≡ state d
interrupting-IsPast d under_way = state-request_interrupt d entered
interrupting-IsPast d over = state-request_interrupt d finished

-- No call leads back to before the entry.
perform-IsPast :
    (identifier : String) (c : Call) (d : Directory)
    → IsPast (state d)
    → IsPast (state (perform identifier c d).0)
unfolding perform enter cancel_before_start finish request_interrupt
perform-IsPast identifier entry d p = subst (λ z. IsPast (state z)) (sym (entering-IsPast d p)) p
perform-IsPast identifier cancellation d p =
    subst (λ z. IsPast (state z)) (sym (cancelling-IsPast d p)) p
perform-IsPast identifier completion d p = subst IsPast (sym (finishing-IsPast d refl p).0) over
perform-IsPast identifier interruption d p = subst IsPast (sym (interrupting-IsPast d p)) p
perform-IsPast identifier (publication at s) d p =
    subst IsPast (sym (state-publish_selection identifier at s d)) p

perform_all-IsPast :
    (identifier : String) (cs : List Call) (d : Directory)
    → IsPast (state d)
    → IsPast (state (perform_all identifier cs d))
unfolding perform_all
perform_all-IsPast identifier [] d p = p
perform_all-IsPast identifier (c ∷ cs) d p =
    perform_all-IsPast identifier cs _ (perform-IsPast identifier c d p)

close-IsPast :
    (message : Directory → String) (e : Ending) (d : Directory)
    → IsPast (state d)
    → (state (close message e d).directory ≡ returns finished) × ((close message e d).ending ≡ e)
unfolding finish
close-IsPast message (stepped s) d p =
    let f = finishing-IsPast d refl p in (f.0, ap (λ r. ended (message d) r (stepped s)) f.1)
close-IsPast message (raised e) d p = let f = finishing-IsPast d refl p in (f.0, refl)

-- Nor does a call lead away from a reference that was withdrawn.
perform-cancelled :
    (identifier : String) (c : Call) (d : Directory)
    → state d ≡ returns cancelled
    → state (perform identifier c d).0 ≡ returns cancelled
unfolding perform enter cancel_before_start finish request_interrupt
perform-cancelled identifier entry d h = ap (λ r. state (entering d r).0) h ∙ h
perform-cancelled identifier cancellation d h = ap (λ r. state (cancelling d r).0) h ∙ h
perform-cancelled identifier completion d h = ap (λ r. state (finishing d r).0) h ∙ h
perform-cancelled identifier interruption d h = ap (λ r. state (interrupting d r).0) h ∙ h
perform-cancelled identifier (publication at s) d h = state-publish_selection identifier at s d ∙ h

perform_all-cancelled :
    (identifier : String) (cs : List Call) (d : Directory)
    → state d ≡ returns cancelled
    → state (perform_all identifier cs d) ≡ returns cancelled
unfolding perform_all
perform_all-cancelled identifier [] d h = h
perform_all-cancelled identifier (c ∷ cs) d h =
    perform_all-cancelled identifier cs _ (perform-cancelled identifier c d h)

-- A worker that finds the reference ready enters it.
admitted :
    (message : Directory → String) (identifier : String) (i : Planned) (work : Work) (d : Directory)
    → state d ≡ returns ready
    → run_handle message identifier i work d
      ≡ close message work.ending (perform_all identifier work.calls (write_state entered d))
unfolding run_handle enter
admitted message identifier i work d h =
    ap (λ r. after_entry message identifier i work (entering d r).0 (entering d r).1) h

closed_work :
    (message : Directory → String) (identifier : String) (work : Work) (d : Directory)
    → (state
          (close message work.ending
            (perform_all identifier work.calls (write_state entered d))).directory
        ≡ returns finished)
      × ((close message work.ending
            (perform_all identifier work.calls (write_state entered d))).ending
          ≡ work.ending)
closed_work message identifier work d = close-IsPast message work.ending _ (
    perform_all-IsPast identifier work.calls _
      (subst IsPast (sym (state-write_state entered d)) under_way))

-- A worker that is given a ready dispatch reference does the work and ends as the work ends, and leaves the
-- reference finished, whatever is called of the reference meanwhile.
pub dispatched_work_is_closed :
    (message : Directory → String) (identifier : String) (i : Planned) (work : Work) (d : Directory)
    → state d ≡ returns ready
    → ((run_handle message identifier i work d).executed ≡ true)
      × ((run_handle message identifier i work d).ending ≡ work.ending)
      × (state (run_handle message identifier i work d).directory ≡ returns finished)
dispatched_work_is_closed message identifier i work d h =
    let e = admitted message identifier i work d h in
    let c = closed_work message identifier work d in
    (ap (λ r. r.executed) e, ap (λ r. r.ending) e ∙ c.1, ap (λ r. state r.directory) e ∙ c.0)

-- A worker that is given a dispatch reference that was withdrawn, and after any further calls of it, does no
-- work, changes nothing, and reports the invocation as blocked.
pub withdrawn_work_is_blocked :
    (message : Directory → String) (identifier : String) (i : Planned) (work : Work)
    (later : List Call) (d : Directory)
    → state d ≡ returns cancelled
    → let after = perform_all identifier later d in
      run_handle message identifier i work after
      ≡ record { directory = after; ending = stepped (blocked i); executed = false }
unfolding run_handle enter
withdrawn_work_is_blocked message identifier i work later d h =
    ap (λ r. after_entry message identifier i work (entering after r).0 (entering after r).1)
      (perform_all-cancelled identifier later d h)
  where
    after : Directory
    after = perform_all identifier later d
