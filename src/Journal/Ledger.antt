-- ===== src/Journal/Ledger.antt =====
-- What the tries, the manifests, the standing result and the submissions of a record promise one
-- another: `Ledger`. The tries stand with the newest first, as the fold builds them.
pub mod Steps
pub mod Lookup
use hedloom.Base.{
  ℕ, zero, suc, ◌+◌, ◌≤◌, ◌<◌, ◌≡◌, refl, Bool, true, false, ◌&&◌, ◌||◌, Option, none, some, List,
  [], ◌∷◌, ◌++◌, length, count, All, ◌==◌, is_some, if◌then◌else◌, arith,
}
use hedloom.Json.{Fields, get, natural}
use hedloom.Journal.Types.{
  EventName, JournalEvent, Phase, unsubmitted, TryState, is_terminal, try_at, is_outcome_value,
}
use hedloom.Journal.Fold.{outcome_known}
use hedloom.Journal.World.{Document, document}

-- The event concerns try `n`.
abbrev pub is_about : ℕ → JournalEvent → Bool
is_about n e = elim (natural (get "try" e.args)) [ none ↦ false | some m ↦ m == n ]

abbrev pub is_intent : EventName → Bool
is_intent EventName.submit_intent = true
is_intent _ = false

-- The two events after which a try may be submitted once more.
abbrev pub is_undoing : EventName → Bool
is_undoing EventName.submit_refused = true
is_undoing EventName.submit_lost = true
is_undoing _ = false

abbrev pub intents : ℕ → List JournalEvent → ℕ
intents n log = count (λ e. is_intent e.event && is_about n e) log

abbrev pub undone : ℕ → List JournalEvent → ℕ
undone n log = count (λ e. is_undoing e.event && is_about n e) log

abbrev pub submissions_of : ℕ → List ℕ → ℕ
submissions_of n subs = count (λ m. m == n) subs

abbrev pub phase_open : Phase → ℕ
phase_open unsubmitted = 0
phase_open _ = 1

abbrev pub opened : ℕ → List TryState → ℕ
opened n [] = 0
opened n (t ∷ ts) = if t.number == n then phase_open t.phase else opened n ts

-- Tries are numbered from 0 without gaps.
abbrev pub Numbered : List TryState → Type 0
Numbered [] = Unit
Numbered (t ∷ ts) = (t.number ≡ length ts) × Numbered ts

-- Every try but the newest has ended.
abbrev pub Settled : List TryState → Type 0
Settled [] = Unit
Settled (t ∷ ts) = All (λ u. is_terminal u ≡ true) ts

-- A manifest of try `n` names its try and one of the four outcomes.
pub record IsManifest (n : ℕ) (fs : Fields) : Type 0 where
  pub names : natural (get "try" fs) ≡ some n
  pub ends : is_outcome_value (get "outcome" fs) ≡ true

-- A try that ended has a visible manifest, and a recorded outcome is one of the four.
pub record IsBacked (manifest : ℕ → Option Document) (t : TryState) : Type 0 where
  pub evidence : is_terminal t ≡ true → is_some (manifest t.number) ≡ true
  pub outcome : outcome_known t ≡ true

abbrev pub Published : ℕ → ℕ → Option Document → Type 0
Published size n none = Unit
Published size n (some Document.unreadable_text) = ⊥
Published size n (some (document fs)) = IsManifest n fs × (n < size)

-- The standing result is the manifest of one try.
abbrev pub Stands : (ℕ → Option Document) → Option Document → Type 0
Stands manifest none = Unit
Stands manifest (some doc) = (n : ℕ) × (manifest n ≡ some doc)

pub record Ledger (manifest : ℕ → Option Document) (standing : Option Document)
    (tries : List TryState) (log : List JournalEvent) (subs : List ℕ) : Type 0 where
  pub numbered : Numbered tries
  pub settled : Settled tries
  pub backed : All (IsBacked manifest) tries
  pub published : (n : ℕ) → Published (length tries) n (manifest n)
  pub stands : Stands manifest standing
  -- no submission without an intent, and no second intent without a refusal or a loss
  pub foreseen : (n : ℕ) → submissions_of n subs ≤ intents n log
  pub reopened : (n : ℕ) → intents n log ≤ undone n log + opened n tries
