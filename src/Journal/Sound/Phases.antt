-- ===== src/Journal/Sound/Phases.antt =====
-- The newest try and its phase, event by event: `At n p` says that the record is intact, its newest
-- try is `n`, and that try is in phase `p`.
use hedloom.Base.{
  ℕ, ◌+◌, ◌≤◌, ◌≡◌, refl, sym, ap, subst, ◌∙◌, Bool, true, false, Option, some, List, ◌∷◌, length,
}
use hedloom.Json.{Fields, natural, get}
use hedloom.Result.{ok}
use hedloom.Journal.Types.{
  EventName, JournalEvent, Phase, unsubmitted, intended, submitted, TryState, is_terminal, is_known,
}
use hedloom.Journal.Fold.{Folding, fold_event, touch}
use hedloom.Journal.Fold.Loop.{fold_event-plain, is_plain, number-touch}
use hedloom.Journal.World.{Document, Disk}
use hedloom.Journal.Disk.{append_line}
use hedloom.Journal.Store.{append}
use hedloom.Journal.Hoare.{Triple}
use hedloom.Journal.Ledger.{Ledger, IsBacked, phase_open, is_intent, is_undoing}
use hedloom.Journal.Ledger.Steps.{Ledger-touch, unit_of}
use hedloom.Journal.Sound.{Intact}
use hedloom.Journal.Sound.Append.{On, Intact-append, Intact-exists, written, Triple-append}

pub record At (n : ℕ) (p : Phase) (d : Disk) (next : Option ℕ) (subs : List ℕ) : Type 0 where
  pub sound : Intact d next subs
  pub newest : TryState
  pub older : List TryState
  pub head : sound.view.tries ≡ newest ∷ older
  pub number : newest.number ≡ n
  pub phase : newest.phase ≡ p

-- The phase after an event, as the fold assigns it.
abbrev pub next_phase : EventName → Phase → Phase
next_phase EventName.submit_intent p = intended
next_phase EventName.submit_receipt p = submitted
next_phase EventName.submit_refused p = unsubmitted
next_phase EventName.submit_lost p = unsubmitted
next_phase EventName.submit_indeterminate p = intended
next_phase EventName.terminal p = Phase.terminal
next_phase _ p = p

pub phase-touch :
    (e : JournalEvent) (k : EventName) (t : TryState) → (touch e k t).phase ≡ next_phase k t.phase
unfolding touch
phase-touch e EventName.submit_intent t = refl
phase-touch e _ t = refl

abbrev pub is_ending : EventName → Bool
is_ending EventName.terminal = true
is_ending _ = false

-- Only a terminal event records an outcome.
outcome-touch :
    (e : JournalEvent) (k : EventName) (t : TryState)
    → is_ending k ≡ false
    → (touch e k t).outcome ≡ t.outcome
unfolding touch
outcome-touch e EventName.terminal t h = cc
outcome-touch e _ t h = refl

-- Only a terminal event ends a try.
terminal-touch :
    (e : JournalEvent) (k : EventName) (t : TryState)
    → is_ending k ≡ false
    → is_terminal (touch e k t) ≡ true
    → is_terminal t ≡ true
unfolding touch
terminal-touch e EventName.terminal t h i = cc
terminal-touch e EventName.submit_intent t h i = cc
terminal-touch e EventName.submit_receipt t h i = cc
terminal-touch e EventName.submit_refused t h i = cc
terminal-touch e EventName.submit_lost t h i = cc
terminal-touch e EventName.submit_indeterminate t h i = cc
terminal-touch e _ t h i = i

pub IsBacked-touch :
    (manifest : ℕ → Option Document) (e : JournalEvent) (k : EventName) (t : TryState)
    → is_ending k ≡ false
    → IsBacked manifest t
    → IsBacked manifest (touch e k t)
IsBacked-touch manifest e k t going b = record {
  evidence = λ h. rw (number-touch e k t) (b.evidence (terminal-touch e k t going h));
  outcome = rw (outcome-touch e k t going) b.outcome;
}

module _ {n : ℕ} {p : Phase} {d : Disk} {next : Option ℕ} {subs : List ℕ} (a : At n p d next subs)
    (e : JournalEvent) (names : natural (get "try" e.args) ≡ some n) where
  abbrev pub touched : Folding
  touched = record { tries = touch e e.event a.newest ∷ a.older; pins = a.sound.view.pins }

  pub fold_event-At : is_plain e.event ≡ true → fold_event a.sound.view e ≡ ok touched
  fold_event-At plain =
      subst (λ ts. fold_event (record { tries = ts; pins = a.sound.view.pins }) e ≡ ok touched)
        (sym a.head)
        (fold_event-plain a.sound.view.pins a.newest a.older e (names ∙ ap some (sym a.number))
          plain)

  pub Ledger-At : Ledger d.manifest d.standing (a.newest ∷ a.older) a.sound.log subs
  Ledger-At = subst (λ ts. Ledger d.manifest d.standing ts a.sound.log subs) a.head a.sound.ledger

  -- A plain event of the newest try, with what it makes of that try's evidence.
  unfoldable pub At-append :
      is_known e.event ≡ true
      → is_plain e.event ≡ true
      → e.seq ≡ length a.sound.log
      → (IsBacked d.manifest a.newest → IsBacked d.manifest (touch e e.event a.newest))
      → unit_of (is_intent e.event) + phase_open p
        ≤ unit_of (is_undoing e.event) + phase_open (next_phase e.event p)
      → At n
          (next_phase e.event p)
          (append_line e (record d { exists = true }))
          (some (e.seq + 1))
          subs
  unfolding Intact-exists Intact-append
  At-append known plain numbered backs budget = record {
    sound = Intact-append (Intact-exists a.sound) e touched numbered known (fold_event-At plain) (
        Ledger-touch a.newest (touch e e.event a.newest) a.older e Ledger-At
          (number-touch e e.event a.newest) (backs Ledger-At.backed.0)
          (names ∙ ap some (sym a.number)) (rw (phase-touch e e.event a.newest, a.phase) budget));
    newest = touch e e.event a.newest;
    older = a.older;
    head = refl;
    number = number-touch e e.event a.newest ∙ a.number;
    phase = phase-touch e e.event a.newest ∙ ap (next_phase e.event) a.phase;
  }

module _ {S : Type 0} (name : EventName) (args : Fields) (n : ℕ) (p : Phase) where
  -- Every event but a terminal one, on the newest try.
  pub Triple-append-At :
      is_known name ≡ true
      → is_plain name ≡ true
      → is_ending name ≡ false
      → natural (get "try" args) ≡ some n
      → unit_of (is_intent name) + phase_open p
        ≤ unit_of (is_undoing name) + phase_open (next_phase name p)
      → Triple {S = S}
          (On (At n p))
          (append name args)
          (On Intact)
          (λ _. On (At n (next_phase name p)))
  Triple-append-At known plain going names budget =
      Triple-append name args (At n p) (At n (next_phase name p)) known names
        (λ d next subs a. a.sound)
        (λ d next subs a seq at numbered.
          At-append a (written name args seq at) names known plain numbered
            (IsBacked-touch d.manifest (written name args seq at) name a.newest going) budget)
