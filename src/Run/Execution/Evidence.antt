-- ===== src/Run/Execution/Evidence.antt =====
-- The evidence that a dispatch reference publishes is written once.
use hedloom.Base.{
  String, Bool, true, false, ◌≡◌, ◌↔◌, ◌⊎◌, List, [], ◌∷◌, refl, sym, ap, ◌∙◌, arith, ◌==◌, ==_iff,
  str_eq, eq_iff, ◌&&◌, Bool-cases, inl, inr, if◌then◌else◌,
}
use hedloom.Json.{str, obj, Fields, field, end}
use hedloom.Run.Execution.{
  File, absent, holds, Directory, Reply, returns, execution_error, type_error, Write, link,
  document, same_document, Admission, ready, entered, cancelled, finished, entering, cancelling,
  finishing, interrupting, enter, cancel_before_start, finish, request_interrupt,
}
use hedloom.Run.Execution.Gate.{
  Call, entry, cancellation, completion, interruption, publication, perform, perform_all,
}
use hedloom.Run.Execution.Selections.{
  Selection, common, publish_selection, after_selection, with_workspace,
}

-- The same try of the same record, with the same disposition.
abbrev pub Same : Selection → Selection → Type 0
Same s t =
    (s.record_name ≡ t.record_name)
    × (s.try_number ≡ t.try_number)
    × (s.disposition ≡ t.disposition)

same_selection : Selection → Selection → Bool
same_selection s t =
    str_eq s.record_name t.record_name
    && (s.try_number == t.try_number && str_eq s.disposition t.disposition)

same_selection_iff : (s t : Selection) → (same_selection s t ≡ true) ↔ Same s t
unfolding same_selection
same_selection_iff s t = (
  λ h. (
    (eq_iff s.record_name t.record_name).0 (ground (arith, h)),
    (==_iff s.try_number t.try_number).0 (ground (arith, h)),
    (eq_iff s.disposition t.disposition).0 (ground (arith, h)),
  ),
  λ h.
      rw ((eq_iff s.record_name t.record_name).1 h.0) (
        rw ((==_iff s.try_number t.try_number).1 h.1) ((eq_iff s.disposition t.disposition).1 h.2)),
)

-- What the selection file holds after the first publication.
abbrev written : String → String → Selection → Fields
written identifier at s =
    document (common identifier at s (field "disposition" (str s.disposition) end))

compared :
    (identifier at later : String) (s t : Selection)
    → same_document (written identifier at s) (written identifier later t) ≡ same_selection s t
unfolding same_selection
compared identifier at later s t = ground (arith, eq_iff identifier identifier)

after_selection-selection :
    (identifier at : String) (s : Selection) (d : Directory) (r : Reply (Unit {0}))
    → (after_selection identifier at s d r).0.selection ≡ d.selection
after_selection-selection identifier at s d execution_error = refl
after_selection-selection identifier at s d type_error = refl
after_selection-selection identifier at s d (returns u) = kept s.workspace_known
  where
    kept : (b : Bool) → (with_workspace identifier at s b d).0.selection ≡ d.selection
    kept true = refl
    kept false = refl

first_publication :
    (identifier at : String) (s : Selection) (d : Directory)
    → d.selection ≡ absent
    → (publish_selection identifier at s d).0.selection ≡ holds (obj (written identifier at s))
unfolding publish_selection
first_publication identifier at s d h =
    after_selection-selection identifier at s _ _
    ∙ ap (λ f. (link f (common identifier at s (field "disposition" (str s.disposition) end))).0) h

-- How a link to a file that is there ends.
abbrev settled : File → Bool → Write
settled f b = if b then (f, returns tt) else (f, execution_error)

-- Linking again keeps the file, and compares.
relinked :
    (identifier at later : String) (s t : Selection)
    → link
        (holds (obj (written identifier at s)))
        (common identifier later t (field "disposition" (str t.disposition) end))
      ≡ settled (holds (obj (written identifier at s))) (same_selection s t)
relinked identifier at later s t =
    ap (settled (holds (obj (written identifier at s)))) (compared identifier at later s t)

-- The file of a directory that holds the selection `s`.
abbrev Holds : String → String → Selection → Directory → Type 0
Holds identifier at s d = d.selection ≡ holds (obj (written identifier at s))

-- How a later publication ends, and what it leaves, where the file is there.
ending : String → String → Selection → Directory → File → Bool → Directory × Reply (Unit {0})
ending identifier later t d f b =
    after_selection identifier later t (record d { selection = (settled f b).0 }) (settled f b).1

republished :
    (identifier at later : String) (s t : Selection) (d : Directory)
    → Holds identifier at s d
    → publish_selection identifier later t d
      ≡ ending identifier later t d (holds (obj (written identifier at s))) (same_selection s t)
unfolding publish_selection ending
republished identifier at later s t d h =
    ap (λ z. after_selection identifier later t (record d { selection = z.0 }) z.1)
      (ap (λ f. link f (common identifier later t (field "disposition" (str t.disposition) end))) h
        ∙ relinked identifier at later s t)

-- How a later publication ends: as the publication of its workspace, where it names the same try of the same
-- record with the same disposition, and with an error otherwise.
abbrev pub Compared : String → String → Selection → Selection → Directory → Type 0
Compared identifier later s t d =
    (Same s t
      × ((publish_selection identifier later t d).1
          ≡ (with_workspace identifier later t t.workspace_known d).1))
    ⊎ ((Same s t → ⊥) × ((publish_selection identifier later t d).1 ≡ execution_error))

Compared-later :
    (identifier at later : String) (s t : Selection) (d : Directory)
    → Holds identifier at s d
    → Compared identifier later s t d
unfolding ending
Compared-later identifier at later s t d h = elim (Bool-cases (same_selection s t)) [
  | inl p ↦ inl (
    (same_selection_iff s t).0 p,
    ap (λ z. z.1) (republished identifier at later s t d h)
        ∙ (ap (λ b. (ending identifier later t d (holds (obj (written identifier at s))) b).1) p
            ∙ by_workspace t.workspace_known),
  )
  | inr p ↦ inr (
    (λ e. absurd (true≢false (sym ((same_selection_iff s t).1 e) ∙ p))),
    ap (λ z. z.1) (republished identifier at later s t d h)
        ∙ ap (λ b. (ending identifier later t d (holds (obj (written identifier at s))) b).1) p,
  )
]
  where
    by_workspace :
        (b : Bool)
        → (with_workspace identifier later t b
            (record d { selection = holds (obj (written identifier at s)) })).1
          ≡ (with_workspace identifier later t b d).1
    by_workspace true = refl
    by_workspace false = refl

    true≢false : true ≡ false → ⊥
    true≢false e = cc

entering-selection :
    (d : Directory) (r : Reply Admission) → (entering d r).0.selection ≡ d.selection
entering-selection d (returns ready) = refl
entering-selection d (returns entered) = refl
entering-selection d (returns cancelled) = refl
entering-selection d (returns finished) = refl
entering-selection d execution_error = refl
entering-selection d type_error = refl

cancelling-selection :
    (d : Directory) (r : Reply Admission) → (cancelling d r).0.selection ≡ d.selection
cancelling-selection d (returns ready) = refl
cancelling-selection d (returns entered) = refl
cancelling-selection d (returns cancelled) = refl
cancelling-selection d (returns finished) = refl
cancelling-selection d execution_error = refl
cancelling-selection d type_error = refl

finishing-selection :
    (d : Directory) (r : Reply Admission) → (finishing d r).0.selection ≡ d.selection
finishing-selection d (returns ready) = refl
finishing-selection d (returns entered) = refl
finishing-selection d (returns cancelled) = refl
finishing-selection d (returns finished) = refl
finishing-selection d execution_error = refl
finishing-selection d type_error = refl

interrupting-selection :
    (d : Directory) (r : Reply Admission) → (interrupting d r).0.selection ≡ d.selection
interrupting-selection d (returns ready) = refl
interrupting-selection d (returns entered) = refl
interrupting-selection d (returns cancelled) = refl
interrupting-selection d (returns finished) = refl
interrupting-selection d execution_error = refl
interrupting-selection d type_error = refl

-- No call of the reference replaces the file.
perform-Holds :
    (identifier at : String) (s : Selection) (c : Call) (d : Directory)
    → Holds identifier at s d
    → Holds identifier at s (perform identifier c d).0
unfolding perform enter cancel_before_start finish request_interrupt ending
perform-Holds identifier at s entry d h = entering-selection d _ ∙ h
perform-Holds identifier at s cancellation d h = cancelling-selection d _ ∙ h
perform-Holds identifier at s completion d h = finishing-selection d _ ∙ h
perform-Holds identifier at s interruption d h = interrupting-selection d _ ∙ h
perform-Holds identifier at s (publication later t) d h =
    ap (λ z. z.0.selection) (republished identifier at later s t d h) ∙ kept (same_selection s t)
  where
    kept :
        (b : Bool)
        → (ending identifier later t d (holds (obj (written identifier at s))) b).0.selection
          ≡ holds (obj (written identifier at s))
    kept true =
        after_selection-selection identifier later t
          (record d { selection = holds (obj (written identifier at s)) }) (returns tt)
    kept false = refl

perform_all-Holds :
    (identifier at : String) (s : Selection) (cs : List Call) (d : Directory)
    → Holds identifier at s d
    → Holds identifier at s (perform_all identifier cs d)
unfolding perform_all
perform_all-Holds identifier at s [] d h = h
perform_all-Holds identifier at s (c ∷ cs) d h =
    perform_all-Holds identifier at s cs _ (perform-Holds identifier at s c d h)

-- Once a selection is published the file that holds it stays, whatever calls of the reference follow, later
-- publications included. After them a publication that names another try, record or disposition raises, and
-- one that names the same ends as the publication of its workspace does, or returns where it has none.
pub selection_is_settled :
    (identifier at later : String) (s t : Selection) (calls : List Call) (d : Directory)
    → d.selection ≡ absent
    → let published = (publish_selection identifier at s d).0 in
      let after = perform_all identifier calls published in
      (after.selection ≡ published.selection) × Compared identifier later s t after
selection_is_settled identifier at later s t calls d h =
    let first = first_publication identifier at s d h in
    let last = perform_all-Holds identifier at s calls _ first in
    (last ∙ sym first, Compared-later identifier at later s t _ last)
