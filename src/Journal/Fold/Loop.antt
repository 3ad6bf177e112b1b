-- ===== src/Journal/Fold/Loop.antt =====
-- One more event in the log is one more round of the fold.
use hedloom.Base.{
  ℕ, ◌≡◌, refl, Bool, true, false, none, some, List, [], ◌∷◌, ◌++◌, arith, ==_refl, ◌∙◌,
}
use hedloom.Json.{natural, get}
use hedloom.Result.{Result, ok, err, ◌>>=?◌}
use hedloom.Journal.Types.{EventName, JournalEvent, TryState, Pin, try_at}
use hedloom.Journal.Fold.{
  Folding, touch, update_try, fold_known, fold_numbered, fold_event, fold_loop, started,
}

module _ (v v' : Folding) (es : List JournalEvent) (e : JournalEvent) where
  snoc-step :
      (r : Result Folding)
      → ((a : Folding) → fold_loop a es ≡ ok v → fold_loop a (es ++ e ∷ []) ≡ ok v')
      → (r >>=? λ s. fold_loop s es) ≡ ok v
      → (r >>=? λ s. fold_loop s (es ++ e ∷ [])) ≡ ok v'
  snoc-step (ok a) ih h = ih a h
  snoc-step (err x) ih h = cc

pub fold_loop-snoc :
    (s : Folding) (es : List JournalEvent) (e : JournalEvent) (v v' : Folding)
    → fold_loop s es ≡ ok v
    → fold_event v e ≡ ok v'
    → fold_loop s (es ++ e ∷ []) ≡ ok v'
unfolding fold_loop
fold_loop-snoc s [] e v v' h step = ground (arith, step)
fold_loop-snoc s (x ∷ es) e v v' h step =
    snoc-step v v' es e (fold_event s x) (λ a ha. fold_loop-snoc a es e v v' ha step) h

-- Touching an entry leaves its number.
pub number-touch :
    (e : JournalEvent) (k : EventName) (t : TryState) → (touch e k t).number ≡ t.number
unfolding touch
number-touch e EventName.submit_intent t = refl
number-touch e _ t = refl

-- The events that change one try, or nothing.
abbrev pub is_plain : EventName → Bool
is_plain EventName.try_started = false
is_plain EventName.pinned = false
is_plain EventName.unpinned = false
is_plain _ = true

module _ (pins : List Pin) (t : TryState) (ts : List TryState) (e : JournalEvent) where
  abbrev facing : Folding
  facing = record { tries = t ∷ ts; pins = pins }

  fold_known-plain :
      (k : EventName)
      → is_plain k ≡ true
      → fold_known t.number e k facing ≡ ok (record { tries = touch e k t ∷ ts; pins = pins })
  unfolding fold_known update_try
  fold_known-plain EventName.try_started h = cc
  fold_known-plain EventName.pinned h = cc
  fold_known-plain EventName.unpinned h = cc
  fold_known-plain _ h = rw (==_refl t.number)

  fold_numbered-plain :
      (k : EventName)
      → is_plain k ≡ true
      → fold_numbered t.number e k facing ≡ fold_known t.number e k facing
  unfolding fold_numbered
  fold_numbered-plain EventName.try_started h = cc
  fold_numbered-plain EventName.pinned h = cc
  fold_numbered-plain EventName.unpinned h = cc
  fold_numbered-plain _ h = rw (==_refl t.number)

  -- A plain event of the newest try touches that try, and nothing else.
  pub fold_event-plain :
      natural (get "try" e.args) ≡ some t.number
      → is_plain e.event ≡ true
      → fold_event facing e ≡ ok (record { tries = touch e e.event t ∷ ts; pins = pins })
  unfolding fold_event
  fold_event-plain names plain =
      rw (names, fold_event) (fold_numbered-plain e.event plain ∙ fold_known-plain e.event plain)

-- `try_started` of a number that no try has.
pub fold_event-start :
    (pins : List Pin) (ts : List TryState) (e : JournalEvent) (n : ℕ)
    → natural (get "try" e.args) ≡ some n
    → e.event ≡ EventName.try_started
    → try_at n ts ≡ none
    → fold_event (record { tries = ts; pins = pins }) e
      ≡ ok (record { tries = started n e.at ∷ ts; pins = pins })
unfolding fold_event fold_numbered
fold_event-start pins ts e n names starts fresh = ground arith
