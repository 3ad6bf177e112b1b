-- ===== src/Journal/Sound/Seen.antt =====
-- What a fold of an intact record shows: the current try of the state is the newest try.
use hedloom.Base.{ℕ, ◌≡◌, refl, sym, ap, ◌∙◌, Option, none, some, List, [], ◌∷◌}
use hedloom.Result.{ok}
use hedloom.Journal.Types.{TryState, AttemptState, current, try_at}
use hedloom.Journal.Fold.Sorting.{state_of, newest, current-state_of, try_at-sort_tries}
use hedloom.Journal.World.{Disk}
use hedloom.Journal.Disk.{fold_disk}
use hedloom.Journal.Store.{fold}
use hedloom.Journal.Hoare.{Triple, Triple-ask}
use hedloom.Journal.Sound.{Intact, fold_disk-Intact}
use hedloom.Journal.Sound.Append.{Condition, On}
use hedloom.Journal.Sound.Phases.{At}

-- The state is what the record folds to.
pub record Seen (st : AttemptState) (d : Disk) (next : Option ℕ) (subs : List ℕ) : Type 0 where
  pub sound : Intact d next subs
  pub folded : st ≡ state_of sound.log sound.view

-- `t` is the newest try.
pub record Newest (t : TryState) (d : Disk) (next : Option ℕ) (subs : List ℕ) : Type 0 where
  pub sound : Intact d next subs
  pub older : List TryState
  pub head : sound.view.tries ≡ t ∷ older

ok-injective : {A : Type 0} (a b : A) → ok a ≡ ok b → a ≡ b
ok-injective a b h = cc

-- `fold` of an intact record returns, and changes nothing.
pub Triple-fold :
    {S : Type 0} (P : Condition) (Q : AttemptState → Condition)
    → (sound : (d : Disk) (next : Option ℕ) (subs : List ℕ) → P d next subs → Intact d next subs)
    → ((st : AttemptState) (d : Disk) (next : Option ℕ) (subs : List ℕ) (p : P d next subs)
        → st ≡ state_of (sound d next subs p).log (sound d next subs p).view
        → Q st d next subs)
    → Triple {S = S} (On P) fold (On Intact) (λ st. On (Q st))
unfolding fold
Triple-fold P Q sound k =
    Triple-ask (λ w. fold_disk w.disk) (λ w p. sound w.disk w.next_seq w.submissions p)
      (λ st w e p.
        let s = sound w.disk w.next_seq w.submissions p in
        k st w.disk w.next_seq w.submissions p
          (ok-injective st (state_of s.log s.view) (sym e ∙ fold_disk-Intact s)))

module _ {st : AttemptState} {d : Disk} {next : Option ℕ} {subs : List ℕ}
    (seen : Seen st d next subs) where
  current-Seen : current st ≡ newest seen.sound.view.tries
  current-Seen =
      ap current seen.folded
      ∙ current-state_of seen.sound.log seen.sound.view.tries seen.sound.view.pins
          seen.sound.ledger.numbered

  newest-none : (ts : List TryState) → newest ts ≡ none → ts ≡ []
  newest-none [] h = refl
  newest-none (t ∷ ts) h = cc

  newest-some :
      (t : TryState) (ts : List TryState)
      → newest ts ≡ some t
      → (us : List TryState) × (ts ≡ t ∷ us)
  newest-some t [] h = cc
  newest-some t (u ∷ us) h = (us, cc)

  pub Seen-none : current st ≡ none → seen.sound.view.tries ≡ []
  Seen-none h = newest-none seen.sound.view.tries (sym current-Seen ∙ h)

  pub Seen-head :
      (t : TryState) → current st ≡ some t → (us : List TryState) × (seen.sound.view.tries ≡ t ∷ us)
  Seen-head t h = newest-some t seen.sound.view.tries (sym current-Seen ∙ h)

  pub Seen-some : (t : TryState) → current st ≡ some t → Newest t d next subs
  Seen-some t h =
      let (us, e) = newest-some t seen.sound.view.tries (sym current-Seen ∙ h) in
      record { sound = seen.sound; older = us; head = e }

  pub try_at-Seen : (n : ℕ) → try_at n st.tries ≡ try_at n seen.sound.view.tries
  try_at-Seen n =
      ap (λ (s : AttemptState). try_at n s.tries) seen.folded
      ∙ try_at-sort_tries n seen.sound.view.tries seen.sound.ledger.numbered

pub At-Newest :
    {t : TryState} {d : Disk} {next : Option ℕ} {subs : List ℕ}
    → Newest t d next subs
    → At t.number t.phase d next subs
At-Newest {t} n = record {
  sound = n.sound;
  newest = t;
  older = n.older;
  head = n.head;
  number = refl;
  phase = refl;
}
