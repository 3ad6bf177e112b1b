-- ===== src/Attempt/Launch/Resolve/Published.antt =====
-- What a launch makes of a current try whose manifest is visible, and of any current try.
use hedloom.Base.{
  ℕ, ◌≡◌, refl, Bool, true, false, Option, none, some, List, ◌∷◌, String, Option-cases, inl, inr,
}
use hedloom.Json.{Fields, get}
use hedloom.Result.{ok, or_raise, assertion_failed}
use hedloom.Journal.Types.{
  Phase, unsubmitted, intended, submitted, TryState, AttemptState, current, is_terminal,
  is_terminal_phase, is_outcome_value,
}
use hedloom.Journal.World.{Disk, document}
use hedloom.Journal.Disk.{manifest_of}
use hedloom.Journal.Store.{read_manifest}
use hedloom.Journal.Hoare.{
  Triple, Triple-bind, Triple-pure, Triple-if, Triple-from, Triple-ask, Triple-lift,
}
use hedloom.Journal.Sound.{Intact}
use hedloom.Journal.Sound.Append.{Condition, On}
use hedloom.Journal.Sound.Phases.{At}
use hedloom.Journal.Sound.Publish.{Evident, Triple-make_standing, manifest_of-some, or_raise-ok}
use hedloom.Journal.Sound.Seen.{Triple-fold, Seen, Seen-none, Seen-head, Seen-some, At-Newest}
use hedloom.Attempt.Env.{Env, is_reusable}
use hedloom.Attempt.Launch.{
  repaired_state, reuse_or_retry, launch_published, published_or_not, launch_current,
}
use hedloom.Attempt.Launch.Begin.{IsPlaced, launch_new-Intact}
use hedloom.Attempt.Launch.Existing.{
  Triple-existing, Triple-completed, Triple-repair, IsManifest-published,
}
use hedloom.Attempt.Launch.Resolve.{new-At, launch_unpublished-Intact}

-- The newest try of the folded state has ended.
record Over (st : AttemptState) (d : Disk) (next : Option ℕ) (subs : List ℕ) : Type 0 where
  seen : Seen st d next subs
  last : TryState
  older : List TryState
  head : seen.sound.view.tries ≡ last ∷ older
  ended : last.phase ≡ Phase.terminal

-- The newest try of the folded state is `t`, and its manifest is there.
record Found (t : TryState) (doc : Fields) (st : AttemptState) (d : Disk) (next : Option ℕ)
    (subs : List ℕ) : Type 0 where
  seen : Seen st d next subs
  current : current st ≡ some t
  there : d.manifest t.number ≡ some (document doc)

terminal_phase : (p : Phase) → is_terminal_phase p ≡ true → p ≡ Phase.terminal
terminal_phase Phase.terminal h = refl
terminal_phase unsubmitted h = cc
terminal_phase intended h = cc
terminal_phase submitted h = cc

module _ (t : TryState) (doc : Fields) (st : AttemptState) (d : Disk) (next : Option ℕ)
    (subs : List ℕ) (f : Found t doc st d next subs) where
  Over-Found : is_terminal t ≡ true → Over st d next subs
  Over-Found e =
      let (us, h) = Seen-head f.seen t f.current in
      record { seen = f.seen; last = t; older = us; head = h; ended = terminal_phase t.phase e }

  Evident-Found : Evident t.number t.phase d next subs
  Evident-Found = record { at = At-Newest (Seen-some f.seen t f.current); visible = rw f.there }

  known-Found : is_outcome_value (get "outcome" doc) ≡ true
  known-Found =
      (IsManifest-published _ t.number doc (d.manifest t.number)
        (f.seen.sound.ledger.published t.number) f.there).ends

At-Over :
    (st : AttemptState) (t : TryState) (d : Disk) (next : Option ℕ) (subs : List ℕ)
    → Over st d next subs
    → current st ≡ some t
    → At t.number Phase.terminal d next subs
At-Over st t d next subs o h =
    let (us, e) = Seen-head o.seen t h in
    record {
      sound = o.seen.sound;
      newest = t;
      older = us;
      head = e;
      number = refl;
      phase = cc (o.head, e, o.ended);
    }

module _ {S : Type 0} (env : Env S) where
  repaired_state-Over :
      (b : Bool) (t : TryState) (doc : Fields) (st : AttemptState)
      → is_terminal t ≡ b
      → Triple {S = S}
          (On (Found t doc st))
          (repaired_state env b t.number doc st)
          (On Intact)
          (λ st'. On (Over st'))
  repaired_state-Over true t doc st e =
      Triple-pure st (λ w f. Over-Found t doc st w.disk w.next_seq w.submissions f e)
  repaired_state-Over false t doc st e = record {
    run = λ w f.
        (Triple-bind
            (Triple-repair env t.number t.phase doc
              (known-Found t doc st w.disk w.next_seq w.submissions f))
            (λ u.
              Triple-fold (At t.number Phase.terminal) Over (λ d next subs a. a.sound)
                (λ st' d next subs a e. record {
                  seen = record { sound = a.sound; folded = e };
                  last = a.newest;
                  older = a.older;
                  head = a.head;
                  ended = a.phase;
                }))).run
          w (Evident-Found t doc st w.disk w.next_seq w.submissions f);
  }

module _ {S : Type 0} (env : Env S) (bundle : Fields) (work_dir : Option String)
    (placed : IsPlaced bundle) where
  reuse_or_retry-Intact :
      (t : TryState) (doc : Fields) (state : AttemptState)
      → Triple {S = S}
          (On (At t.number Phase.terminal))
          (reuse_or_retry env t doc state bundle work_dir)
          (On Intact)
          (λ r. On Intact)
  unfolding reuse_or_retry
  reuse_or_retry-Intact t doc state =
      Triple-if (is_reusable (some t) doc) _ _
        (λ e. Triple-bind (Triple-make_standing t.number Phase.terminal t.number) λ d.
          Triple-bind (Triple-from (λ w a. a.sound) (Triple-existing env t.number "completed"))
            λ u. Triple-completed env state doc)
        (λ e. new-At env bundle work_dir placed t.number Phase.terminal tt)

  launch_published-Intact :
      (t : TryState) (doc : Fields) (state : AttemptState)
      → Triple {S = S}
          (On (Found t doc state))
          (launch_published env t doc state bundle work_dir)
          (On Intact)
          (λ r. On Intact)
  unfolding launch_published
  launch_published-Intact t doc state =
      Triple-bind (repaired_state-Over env (is_terminal t) t doc state refl) λ st.
        Triple-bind {Q = λ t'. On (At t'.number Phase.terminal)}
          (Triple-lift (or_raise (current st) assertion_failed) (λ w o. o.seen.sound)
            (λ t' w e o.
              At-Over st t' w.disk w.next_seq w.submissions o
                (or_raise-ok (current st) assertion_failed t' e)))
          λ t'. reuse_or_retry-Intact t' doc st

  abbrev Holds : TryState → AttemptState → Option Fields → Condition
  Holds t st o d next subs =
      Seen st d next subs × (current st ≡ some t) × (manifest_of t.number d ≡ ok o)

  published_or_not-Intact :
      (t : TryState) (state : AttemptState) (o : Option Fields)
      → Triple {S = S}
          (On (Holds t state o))
          (published_or_not env o t state bundle work_dir)
          (On Intact)
          (λ r. On Intact)
  published_or_not-Intact t state none =
      Triple-from (λ w h. Seen-some h.0 t h.1)
        (launch_unpublished-Intact env bundle work_dir placed t state)
  published_or_not-Intact t state (some doc) =
      Triple-from
        (λ w h. record {
          seen = h.0;
          current = h.1;
          there = manifest_of-some t.number w.disk doc h.2;
        })
        (launch_published-Intact t doc state)

  pub launch_current-Intact :
      (state : AttemptState)
      → Triple {S = S}
          (On (Seen state))
          (launch_current env (current state) state bundle work_dir)
          (On Intact)
          (λ r. On Intact)
  unfolding launch_current read_manifest
  launch_current-Intact state = elim (Option-cases (current state)) [
    | inl e ↦ simp e (
        Triple-from (λ w s. record { sound = s.sound; idle = rw (Seen-none s e) tt })
          (launch_new-Intact env bundle work_dir placed))
    | inr (t, e) ↦ simp e (
        Triple-bind {Q = λ o. On (Holds t state o)}
          (Triple-ask (λ w. manifest_of t.number w.disk) (λ w s. s.sound) (λ o w h s. (s, e, h)))
          (published_or_not-Intact t state))
  ]
