-- ===== src/Journal/Fold/Sorting.antt =====
-- The state that a fold yields when the tries are numbered without gaps: the current try is the
-- newest, and each number leads to its entry.
use hedloom.Base.{
  ℕ, suc, ◌<◌, ◌≡◌, refl, true, Option, none, some, List, [], ◌∷◌, ◌++◌, length, all, ap, All,
  All-append, All-map, ◌==◌, if◌then◌else◌, arith, ==_refl, ◌∙◌,
}
use hedloom.Result.{ok}
use hedloom.Journal.Types.{JournalEvent, TryState, Pin, AttemptState, current, try_at}
use hedloom.Journal.Fold.{Folding, insert_try, sort_tries, last_number, outcome_known, fold_finish}

-- as in `Ledger.Numbered`, which stands above this module
abbrev Numbered : List TryState → Type 0
Numbered [] = Unit
Numbered (t ∷ ts) = (t.number ≡ length ts) × Numbered ts

abbrev Below : ℕ → List TryState → Type 0
Below n = All (λ u. u.number < n)

insert_try-last :
    (t : TryState) (us : List TryState) → Below t.number us → insert_try t us ≡ us ++ t ∷ []
unfolding insert_try
insert_try-last t [] h = refl
insert_try-last t (u ∷ us) h = ground (arith, insert_try-last t us)

-- The newest try has the largest number, so it is sorted to the end.
sort_tries-newest :
    (t : TryState) (ts : List TryState)
    → t.number ≡ length ts
    → Below (length ts) (sort_tries ts)
    → sort_tries (t ∷ ts) ≡ sort_tries ts ++ t ∷ []
unfolding sort_tries
sort_tries-newest t ts e h = insert_try-last t (sort_tries ts) (rw e h)

Below-suc : (n : ℕ) (us : List TryState) → Below n us → Below (suc n) us
Below-suc n us = All-map (λ u. u.number < n) (λ u. u.number < suc n) (λ u h. omega arith) us

sort_tries-Below : (ts : List TryState) → Numbered ts → Below (length ts) (sort_tries ts)
unfolding sort_tries
sort_tries-Below [] h = tt
sort_tries-Below (t ∷ ts) h =
    let below = sort_tries-Below ts h.1 in
    rw (sort_tries-newest t ts h.0 below) (
      All-append (λ u. u.number < suc (length ts)) (sort_tries ts) (t ∷ [])
        (Below-suc (length ts) (sort_tries ts) below) (omega arith, tt))

last_number-snoc : (us : List TryState) (t : TryState) → last_number (us ++ t ∷ []) ≡ some t.number
last_number-snoc [] t = refl
last_number-snoc (u ∷ []) t = refl
last_number-snoc (u ∷ v ∷ us) t = last_number-snoc (v ∷ us) t

try_at-snoc :
    (n : ℕ) (us : List TryState) (t : TryState)
    → Below t.number us
    → try_at n (us ++ t ∷ []) ≡ (if t.number == n then some t else try_at n us)
try_at-snoc n [] t h = refl
try_at-snoc n (u ∷ us) t h = ground (arith, try_at-snoc n us t h.1)

-- Sorting keeps what each number leads to.
pub try_at-sort_tries :
    (n : ℕ) (ts : List TryState) → Numbered ts → try_at n (sort_tries ts) ≡ try_at n ts
unfolding sort_tries
try_at-sort_tries n [] h = refl
try_at-sort_tries n (t ∷ ts) h =
    let below = sort_tries-Below ts h.1 in
    rw (sort_tries-newest t ts h.0 below) (
      try_at-snoc n (sort_tries ts) t (rw h.0 below)
      ∙ ap (λ o. if t.number == n then some t else o) (try_at-sort_tries n ts h.1))

outcome_known-insert_try :
    (t : TryState) (us : List TryState)
    → outcome_known t ≡ true
    → all outcome_known us ≡ true
    → all outcome_known (insert_try t us) ≡ true
unfolding insert_try
outcome_known-insert_try t [] h k = rw h
outcome_known-insert_try t (u ∷ us) h k = ground (arith, outcome_known-insert_try t us h)

outcome_known-sort_tries :
    (ts : List TryState)
    → All (λ t. outcome_known t ≡ true) ts
    → all outcome_known (sort_tries ts) ≡ true
unfolding sort_tries
outcome_known-sort_tries [] h = refl
outcome_known-sort_tries (t ∷ ts) h =
    outcome_known-insert_try t (sort_tries ts) h.0 (outcome_known-sort_tries ts h.1)

-- The state that `log` folds to, through the dictionaries `v`.
abbrev pub state_of : List JournalEvent → Folding → AttemptState
state_of log v =
    let tries = sort_tries v.tries in
    record { tries = tries; current_try = last_number tries; pins = v.pins; events = log }

pub fold_finish-ok :
    (log : List JournalEvent) (v : Folding)
    → All (λ t. outcome_known t ≡ true) v.tries
    → fold_finish log v ≡ ok (state_of log v)
unfolding fold_finish
fold_finish-ok log v h = rw (outcome_known-sort_tries v.tries h)

abbrev pub newest : List TryState → Option TryState
newest [] = none
newest (t ∷ ts) = some t

last_number-sort_tries :
    (t : TryState) (ts : List TryState)
    → Numbered (t ∷ ts)
    → last_number (sort_tries (t ∷ ts)) ≡ some t.number
last_number-sort_tries t ts h =
    rw (sort_tries-newest t ts h.0 (sort_tries-Below ts h.1)) (last_number-snoc (sort_tries ts) t)

try_at-newest : (t : TryState) (ts : List TryState) → try_at t.number (t ∷ ts) ≡ some t
try_at-newest t ts = rw (==_refl t.number)

-- The current try is the newest.
pub current-state_of :
    (log : List JournalEvent) (ts : List TryState) (pins : List Pin)
    → Numbered ts
    → current (state_of log (record { tries = ts; pins = pins })) ≡ newest ts
current-state_of log [] pins h = unfold sort_tries in refl
current-state_of log (t ∷ ts) pins h =
    rw (last_number-sort_tries t ts h) (try_at-sort_tries t.number (t ∷ ts) h ∙ try_at-newest t ts)
