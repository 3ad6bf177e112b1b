-- ===== src/Attempt/Launch/Locked.antt =====
-- The standing result, and the whole of a launch under its claim.
use hedloom.Base.{
  ℕ, ◌≡◌, refl, ap, sym, subst, ◌∙◌, Bool, true, false, Option, none, some, List, [], ◌∷◌, String,
  arith,
}
use hedloom.Json.{Fields, get}
use hedloom.Result.{ok, or_raise, unknown_standing, non_reusable_standing}
use hedloom.Journal.Types.{Phase, TryState, AttemptState, try_at, is_terminal, is_outcome_value}
use hedloom.Journal.World.{Disk, Document, document}
use hedloom.Journal.Disk.{standing_of}
use hedloom.Journal.Store.{read_standing}
use hedloom.Journal.Hoare.{
  Triple, Triple-bind, Triple-pure, Triple-raise, Triple-if, Triple-from, Triple-ask, Triple-lift,
  Triple-modify,
}
use hedloom.Journal.Ledger.{IsManifest, Stands}
use hedloom.Journal.Sound.{Intact}
use hedloom.Journal.Sound.Append.{Condition, On}
use hedloom.Journal.Sound.Phases.{At}
use hedloom.Journal.Sound.Publish.{Evident, or_raise-ok}
use hedloom.Journal.Sound.Seen.{Triple-fold, Seen, try_at-Seen}
use hedloom.Attempt.Env.{Env, is_reusable, named_try, require_matching_inputs}
use hedloom.Attempt.Launch.{
  repaired_state, launch_standing, stand, standing_or_current, launch_locked,
}
use hedloom.Attempt.Launch.Begin.{IsPlaced}
use hedloom.Attempt.Launch.Existing.{
  Triple-existing, Triple-completed, Triple-repair, IsManifest-published, head-unended,
}
use hedloom.Attempt.Launch.Resolve.Published.{launch_current-Intact}

standing_of-some :
    (d : Disk) (doc : Fields) → standing_of d ≡ ok (some doc) → d.standing ≡ some (document doc)
unfolding standing_of
standing_of-some d doc h = ground arith

Stands-some :
    (manifest : ℕ → Option Document) (o : Option Document) (doc : Document)
    → Stands manifest o
    → o ≡ some doc
    → (n : ℕ) × (manifest n ≡ some doc)
Stands-some manifest none doc s e = cc
Stands-some manifest (some d) doc s e = (s.0, cc (s.1))

number-found : (n : ℕ) (ts : List TryState) (t : TryState) → try_at n ts ≡ some t → t.number ≡ n
number-found n [] t h = cc
number-found n (u ∷ us) t h = ground (arith, number-found n us t)

-- The folded state, and the standing result, which stands for try `t`.
record Standing (t : TryState) (doc : Fields) (st : AttemptState) (d : Disk) (next : Option ℕ)
    (subs : List ℕ) : Type 0 where
  seen : Seen st d next subs
  found : try_at t.number seen.sound.view.tries ≡ some t
  there : d.manifest t.number ≡ some (document doc)

module _ (st : AttemptState) (doc : Fields) (d : Disk) (next : Option ℕ) (subs : List ℕ)
    (seen : Seen st d next subs) (stands : d.standing ≡ some (document doc)) where
  named-Standing : (t : TryState) → named_try st.tries doc ≡ some t → Standing t doc st d next subs
  named-Standing t h =
      let (n, there) =
        Stands-some d.manifest d.standing (document doc) seen.sound.ledger.stands stands in
      let good =
        IsManifest-published _ n doc (d.manifest n) (seen.sound.ledger.published n) there in
      let found = sym (try_at-Seen seen n) ∙ sym (named n good) ∙ h in
      let number = number-found n seen.sound.view.tries t found in
      record {
        seen = seen;
        found = subst (λ k. try_at k seen.sound.view.tries ≡ some t) (sym number) found;
        there = subst (λ k. d.manifest k ≡ some (document doc)) (sym number) there;
      }
    where
      named : (n : ℕ) → IsManifest n doc → named_try st.tries doc ≡ try_at n st.tries
      named n good = ap (λ (o : Option ℕ). named_at o) good.names
        where
          named_at : Option ℕ → Option TryState
          named_at o = elim o [ none ↦ none | some k ↦ try_at k st.tries ]

module _ (t : TryState) (doc : Fields) (st : AttemptState) (d : Disk) (next : Option ℕ)
    (subs : List ℕ) (s : Standing t doc st d next subs) where
  Evident-Standing : is_terminal t ≡ false → Evident t.number t.phase d next subs
  Evident-Standing going =
      let (us, h) =
        head-unended t.number s.seen.sound.view.tries t s.seen.sound.ledger.settled s.found going in
      record {
        at = record {
          sound = s.seen.sound;
          newest = t;
          older = us;
          head = h;
          number = refl;
          phase = refl;
        };
        visible = rw s.there;
      }

  known-Standing : is_outcome_value (get "outcome" doc) ≡ true
  known-Standing =
      (IsManifest-published _ t.number doc (d.manifest t.number)
        (s.seen.sound.ledger.published t.number) s.there).ends

module _ {S : Type 0} (env : Env S) where
  repaired_state-Intact :
      (b : Bool) (t : TryState) (doc : Fields) (st : AttemptState)
      → is_terminal t ≡ b
      → Triple {S = S}
          (On (Standing t doc st))
          (repaired_state env b t.number doc st)
          (On Intact)
          (λ st'. On Intact)
  repaired_state-Intact true t doc st e = Triple-pure st (λ w s. s.seen.sound)
  repaired_state-Intact false t doc st e = record {
    run = λ w s.
        (Triple-bind
            (Triple-repair env t.number t.phase doc
              (known-Standing t doc st w.disk w.next_seq w.submissions s))
            (λ u.
              Triple-fold (At t.number Phase.terminal) (λ st'. Intact) (λ d next subs a. a.sound)
                (λ st' d next subs a e. a.sound))).run
          w (Evident-Standing t doc st w.disk w.next_seq w.submissions s e);
  }

  stand-Intact :
      (o : Option TryState) (n : ℕ) (doc : Fields) (state : AttemptState)
      → Triple {S = S} (On Intact) (stand env o n doc state) (On Intact) (λ r. On Intact)
  stand-Intact o n doc state =
      Triple-if (is_reusable o doc) _ _
        (λ e. Triple-bind (Triple-existing env n "completed") (λ u. Triple-completed env state doc))
        (λ e. Triple-raise non_reusable_standing (λ w s. s))

  abbrev Stood : Fields → AttemptState → Condition
  Stood doc st d next subs = Seen st d next subs × (d.standing ≡ some (document doc))

  launch_standing-Intact :
      (doc : Fields) (state : AttemptState)
      → Triple {S = S}
          (On (Stood doc state))
          (launch_standing env doc state)
          (On Intact)
          (λ r. On Intact)
  unfolding launch_standing
  launch_standing-Intact doc state =
      Triple-bind {Q = λ t. On (Standing t doc state)}
        (Triple-lift (or_raise (named_try state.tries doc) unknown_standing) (λ w s. s.0.sound)
          (λ t w e s.
            named-Standing state doc w.disk w.next_seq w.submissions s.0 s.1 t
              (or_raise-ok (named_try state.tries doc) unknown_standing t e)))
        λ t.
          Triple-bind (repaired_state-Intact (is_terminal t) t doc state refl)
            λ st. stand-Intact (named_try st.tries doc) t.number doc st

module _ {S : Type 0} (env : Env S) (bundle : Fields) (work_dir : Option String)
    (placed : IsPlaced bundle) where
  abbrev Read : AttemptState → Option Fields → Condition
  Read st o d next subs = Seen st d next subs × (standing_of d ≡ ok o)

  standing_or_current-Intact :
      (o : Option Fields) (state : AttemptState)
      → Triple {S = S}
          (On (Read state o))
          (standing_or_current env o state bundle work_dir)
          (On Intact)
          (λ r. On Intact)
  standing_or_current-Intact none state =
      Triple-from (λ w r. r.0) (launch_current-Intact env bundle work_dir placed state)
  standing_or_current-Intact (some doc) state =
      Triple-from (λ w r. (r.0, standing_of-some w.disk doc r.1))
        (launch_standing-Intact env doc state)

  pub launch_locked-Intact :
      Triple {S = S} (On Intact) (launch_locked env bundle work_dir) (On Intact) (λ r. On Intact)
  unfolding launch_locked read_standing
  launch_locked-Intact = Triple-bind {Q = λ u. On Intact} (Triple-modify _ (λ w s. s)) λ u.
      Triple-bind
        (Triple-fold Intact Seen (λ d next subs s. s)
          (λ st d next subs s e. record { sound = s; folded = e }))
        λ state.
          Triple-bind {Q = λ v. On (Seen state)}
            (Triple-lift (require_matching_inputs env state bundle) (λ w s. s.sound) (λ v w e s. s))
            λ v.
              Triple-bind {Q = λ o. On (Read state o)}
                (Triple-ask (λ w. standing_of w.disk) (λ w s. s.sound) (λ o w h s. (s, h)))
                λ o. standing_or_current-Intact o state
