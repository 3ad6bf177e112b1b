-- ===== src/Attempt/Reconcile/Resolve/Current.antt =====
-- What a reconciliation, a cancellation and an acceptance make of the current try.
use hedloom.Base.{
  ℕ, ◌≡◌, refl, true, Option, none, some, List, String, Option-cases, inl, inr, arith,
}
use hedloom.Json.{Json, null, Fields, get}
use hedloom.Result.{ok, no_allocated_try, no_try_to_cancel, no_published_result, no_terminal_try}
use hedloom.Journal.Types.{
  EventName, Phase, submitted, TryState, AttemptState, current, is_terminal, is_outcome_value,
  phase_of, handle_of,
}
use hedloom.Journal.World.{Disk, document, pure}
use hedloom.Journal.Disk.{manifest_of}
use hedloom.Journal.Store.{fold, read_manifest}
use hedloom.Journal.Hoare.{
  Triple-lift, Triple-gets, Triple, Triple-bind, Triple-pure, Triple-raise, Triple-if, Triple-from,
  Triple-ask, Triple-modify,
}
use hedloom.Journal.Sound.{Intact}
use hedloom.Journal.Sound.Append.{Condition, On}
use hedloom.Journal.Sound.Phases.{At, Triple-append-At}
use hedloom.Journal.Sound.Publish.{Evident, Triple-make_standing, manifest_of-some}
use hedloom.Journal.Sound.Seen.{Triple-fold, Seen, Newest, Seen-some, At-Newest}
use hedloom.Attempt.Env.{Env, has_outcome}
use hedloom.Attempt.Launch.Existing.{Triple-repair, IsManifest-published}
use hedloom.Attempt.Reconcile.{
  stand_repaired, reconcile_published, reconcile_found, reconcile_current, reconcile_locked,
  reason_args, tell_transport, cancel_current, accept_published, accept_current,
}
use hedloom.Attempt.Reconcile.Resolve.{fold-Intact, observe-Intact, Shown}

module _ (t : TryState) (doc : Fields) (d : Disk) (next : Option ℕ) (subs : List ℕ)
    (n : Newest t d next subs) (there : d.manifest t.number ≡ some (document doc)) where
  Evident-Shown : Evident t.number t.phase d next subs
  Evident-Shown = record { at = At-Newest n; visible = rw there }

  known-Shown : is_outcome_value (get "outcome" doc) ≡ true
  known-Shown =
      (IsManifest-published _ t.number doc (d.manifest t.number) (n.sound.ledger.published t.number)
        there).ends

module _ {S : Type 0} (env : Env S) where
  stand_repaired-Intact :
      (n : ℕ) (doc : Fields)
      → Triple {S = S}
          (On (At n Phase.terminal))
          (stand_repaired env n doc)
          (On Intact)
          (λ u. On Intact)
  stand_repaired-Intact n doc =
      Triple-if (has_outcome "succeeded" doc) _ (pure tt)
        (λ e.
          Triple-bind (Triple-make_standing n Phase.terminal n)
            (λ d. Triple-pure tt (λ w a. a.sound)))
        (λ e. Triple-pure tt (λ w a. a.sound))

  reconcile_published-Intact :
      (t : TryState) (doc : Fields)
      → Triple {S = S}
          (On (Shown env t doc))
          (reconcile_published env t doc)
          (On Intact)
          (λ st. On Intact)
  unfolding reconcile_published
  reconcile_published-Intact t doc =
      Triple-bind {Q = λ u. On Intact}
        (Triple-if (is_terminal t) (pure tt) _ (λ e. Triple-pure tt (λ w s. s.0.sound))
          (λ e. record {
            run = λ w s.
                (Triple-bind
                    (Triple-repair env t.number t.phase doc
                      (known-Shown t doc w.disk w.next_seq w.submissions s.0 s.1))
                    (λ u. stand_repaired-Intact t.number doc)).run
                  w (Evident-Shown t doc w.disk w.next_seq w.submissions s.0 s.1);
          }))
        (λ u. fold-Intact env)

  abbrev Holds : TryState → Option Fields → Condition
  Holds t o d next subs = Newest t d next subs × (manifest_of t.number d ≡ ok o)

  reconcile_found-Intact :
      (outputs : Json) (state : AttemptState) (t : TryState) (o : Option Fields)
      → Triple {S = S}
          (On (Holds t o))
          (reconcile_found env outputs state t o)
          (On Intact)
          (λ st. On Intact)
  reconcile_found-Intact outputs state t (some doc) =
      Triple-from (λ w h. (h.0, manifest_of-some t.number w.disk doc h.1))
        (reconcile_published-Intact t doc)
  reconcile_found-Intact outputs state t none =
      Triple-if (is_terminal t) (pure state) _ (λ e. Triple-pure state (λ w h. h.0.sound))
        (λ e.
          Triple-from (λ w h. At-Newest h.0)
            (observe-Intact env t.number t.phase outputs state t.phase t.handle))

  pub fold-Seen : Triple {S = S} (On Intact) fold (On Intact) (λ st. On (Seen st))
  fold-Seen =
      Triple-fold Intact Seen (λ d next subs s. s)
        (λ st d next subs s e. record { sound = s; folded = e })

  reconcile_current-Intact :
      (outputs : Json) (state : AttemptState)
      → Triple {S = S}
          (On (Seen state))
          (reconcile_current env outputs state (current state))
          (On Intact)
          (λ st. On Intact)
  unfolding read_manifest
  reconcile_current-Intact outputs state = elim (Option-cases (current state)) [
    | inl e ↦ simp e (Triple-raise no_allocated_try (λ w s. s.sound))
    | inr (t, e) ↦ simp e (
        Triple-bind {Q = λ o. On (Holds t o)}
          (Triple-ask (λ w. manifest_of t.number w.disk) (λ w s. s.sound)
            (λ o w h s. (Seen-some s t e, h)))
          (reconcile_found-Intact outputs state t))
  ]

  pub reconcile_locked-Intact :
      (outputs : Json)
      → Triple {S = S} (On Intact) (reconcile_locked env outputs) (On Intact) (λ st. On Intact)
  unfolding reconcile_locked
  reconcile_locked-Intact outputs = Triple-bind fold-Seen (reconcile_current-Intact outputs)

  tell_transport-Intact :
      (p : Phase) (handle : Json)
      → Triple {S = S} (On Intact) (tell_transport env p handle) (On Intact) (λ u. On Intact)
  tell_transport-Intact submitted null = Triple-pure tt (λ w s. s)
  tell_transport-Intact submitted handle =
      Triple-bind {Q = λ done. On Intact} (Triple-gets _ (λ w s. s)) λ done.
        Triple-bind {Q = λ u. On Intact} (Triple-modify _ (λ w s. s))
          λ u. Triple-lift _ (λ w s. s) (λ a w e s. s)
  tell_transport-Intact _ handle = Triple-pure tt (λ w s. s)

  pub cancel_current-Intact :
      (reason : String) (state : AttemptState)
      → Triple {S = S}
          (On (Seen state))
          (cancel_current env reason (current state))
          (On Intact)
          (λ st. On Intact)
  cancel_current-Intact reason state = elim (Option-cases (current state)) [
    | inl e ↦ simp e (Triple-raise no_try_to_cancel (λ w s. s.sound))
    | inr (t, e) ↦ simp e (
        Triple-bind
          (Triple-from (λ w s. At-Newest (Seen-some s t e))
            (Triple-append-At EventName.cancel_requested (reason_args env t.number reason) t.number
              t.phase refl refl refl refl (omega arith)))
          λ u. Triple-bind (Triple-from (λ w a. a.sound) (fold-Intact env)) λ st.
            Triple-bind (tell_transport-Intact (phase_of st) (handle_of st)) λ v. fold-Intact env)
  ]

  accept_published-Intact :
      (reason : String) (t : TryState) (o : Option Fields)
      → Triple {S = S}
          (On (Newest t))
          (accept_published env reason t.number o)
          (On Intact)
          (λ st. On Intact)
  accept_published-Intact reason t none = Triple-raise no_published_result (λ w n. n.sound)
  accept_published-Intact reason t (some doc) =
      Triple-bind
        (Triple-from (λ w n. At-Newest n)
          (Triple-append-At EventName.reuse_accepted _ t.number t.phase refl refl refl refl
            (omega arith)))
        λ u.
          Triple-bind (Triple-make_standing t.number t.phase t.number)
            λ d. Triple-from (λ w a. a.sound) (fold-Intact env)

  pub accept_current-Intact :
      (reason : String) (state : AttemptState)
      → Triple {S = S}
          (On (Seen state))
          (accept_current env reason (current state))
          (On Intact)
          (λ st. On Intact)
  unfolding read_manifest
  accept_current-Intact reason state = elim (Option-cases (current state)) [
    | inl e ↦ simp e (Triple-raise no_terminal_try (λ w s. s.sound))
    | inr (t, e) ↦ simp e (
        Triple-if (is_terminal t) _ _
          (λ b.
            Triple-bind {Q = λ o. On (Newest t)}
              (Triple-ask (λ w. manifest_of t.number w.disk) (λ w s. s.sound)
                (λ o w h s. Seen-some s t e))
              (accept_published-Intact reason t))
          (λ b. Triple-raise no_terminal_try (λ w s. s.sound)))
  ]
