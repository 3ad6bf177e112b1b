-- ===== src/Attempt/Reconcile/Resolve.antt =====
-- What a reconciliation makes of a submitted try.
pub mod Current
use hedloom.Base.{
  ℕ, ◌≡◌, refl, true, Option, none, some, List, ◌&&◌, String, Option-cases, inl, inr, arith,
}
use hedloom.Json.{Json, null, str, obj, Fields, get, put}
use hedloom.Result.{
  ok, no_allocated_try, not_reconcilable, transport_failed, no_try_to_cancel, no_published_result,
  no_terminal_try,
}
use hedloom.Journal.Types.{
  EventName, Phase, submitted, TryState, AttemptState, current, is_terminal, is_outcome_value,
  cancel_requested_of, phase_of, handle_of,
}
use hedloom.Journal.World.{Disk, document, pure}
use hedloom.Journal.Disk.{manifest_of}
use hedloom.Journal.Store.{fold, read_manifest}
use hedloom.Journal.Hoare.{
  Triple, Triple-bind, Triple-pure, Triple-raise, Triple-gets, Triple-if, Triple-from, Triple-ask,
  Triple-modify,
}
use hedloom.Journal.Sound.{Intact}
use hedloom.Journal.Sound.Append.{Condition, On}
use hedloom.Journal.Sound.Phases.{At, Triple-append-At}
use hedloom.Journal.Sound.Publish.{Evident, Triple-make_standing, manifest_of-some}
use hedloom.Journal.Sound.Publish.Terminal.{Triple-publish_terminal}
use hedloom.Journal.Sound.Seen.{Triple-fold, Seen, Newest, Seen-some, At-Newest}
use hedloom.Transport.{Observed, absent, Observation, is_conclusive, state_text}
use hedloom.Attempt.Env.{Env, Capture, captured, missing, has_outcome}
use hedloom.Attempt.Launch.Existing.{Triple-repair, IsManifest-published}
use hedloom.Attempt.Reconcile.{
  publish, with_outputs, conclude, contradiction_detail, is_succeeded, absent_detail,
  after_observation, observed_args, polled, observe, stand_repaired, reconcile_published,
  reconcile_found, reconcile_current, reconcile_locked, reason_args, tell_transport, cancel_current,
  accept_published, accept_current, note_diagnostics, with_placement, with_artifacts,
}

module _ {S : Type 0} (env : Env S) where
  pub fold-Intact : Triple {S = S} (On Intact) fold (On Intact) (λ st. On Intact)
  fold-Intact = Triple-fold Intact (λ st. Intact) (λ d next subs s. s) (λ st d next subs s e. s)

  pub publish-Intact :
      (n : ℕ) (p : Phase) (outcome : String) (manifest : Fields)
      → Triple {S = S} (On (At n p)) (publish env n outcome manifest) (On Intact) (λ st. On Intact)
  publish-Intact n p outcome manifest =
      Triple-bind (Triple-publish_terminal n p env.identity (env.manifest_path n) outcome manifest)
        (λ d. Triple-from (λ w a. a.sound) fold-Intact)

  module _ (n : ℕ) (p : Phase) (state : AttemptState) where
    with_outputs-Intact :
        (outcome : Observed) (handle detail : Fields) (c : Capture)
        → Triple {S = S}
            (On (At n p))
            (with_outputs env n outcome state handle detail c)
            (On Intact)
            (λ st. On Intact)
    with_outputs-Intact outcome handle detail (missing error) =
        publish-Intact n p "failed" (put "error" (str error) detail)
    with_outputs-Intact outcome handle detail (captured produced) =
        publish-Intact n p (state_text outcome)
          (with_placement state handle (with_artifacts produced detail))

    conclude-Intact :
        (outputs : Json) (outcome : Observed) (handle seen : Fields)
        → Triple {S = S}
            (On (At n p))
            (conclude env n outputs state outcome handle seen)
            (On Intact)
            (λ st. On Intact)
    unfolding conclude
    conclude-Intact outputs outcome handle seen =
        Triple-bind {Q = λ f. On (At n p)} (Triple-gets _ (λ w a. a)) λ failure.
          Triple-bind {Q = λ u. On (At n p)} (Triple-modify _ (λ w a. a)) λ u.
            Triple-bind {Q = λ c. On (At n p)} (Triple-gets _ (λ w a. a))
              λ c. with_outputs-Intact outcome handle (note_diagnostics failure seen) c

    undecided-Intact :
        (handle : Fields) (s : Observed)
        → Triple {S = S}
            (On (At n p))
            (elim s [ absent ↦ publish env n "unreconciled" (absent_detail env handle) | _ ↦ fold ])
            (On Intact)
            (λ st. On Intact)
    undecided-Intact handle absent = publish-Intact n p "unreconciled" (absent_detail env handle)
    undecided-Intact handle _ = Triple-from (λ w a. a.sound) fold-Intact

    after_observation-Intact :
        (outputs : Json) (handle : Fields) (o : Observation)
        → Triple {S = S}
            (On (At n p))
            (after_observation env n outputs state handle o)
            (On Intact)
            (λ st. On Intact)
    unfolding after_observation
    after_observation-Intact outputs handle o =
        Triple-if (is_conclusive o.state) _ _
          (λ e.
            Triple-if (cancel_requested_of state && is_succeeded env o.state) _ _
              (λ c. publish-Intact n p "unreconciled" (contradiction_detail env state o.detail))
              (λ c. conclude-Intact outputs o.state handle o.detail))
          (λ e. undecided-Intact handle o.state)

    polled-Intact :
        (outputs : Json) (handle : Fields) (o : Option Observation)
        → Triple {S = S}
            (On (At n p))
            (polled env n outputs state handle o)
            (On Intact)
            (λ st. On Intact)
    polled-Intact outputs handle none = Triple-raise transport_failed (λ w a. a.sound)
    polled-Intact outputs handle (some o) =
        Triple-bind
          (Triple-append-At EventName.observed (observed_args env n o) n p refl refl refl refl
            (omega arith))
          (λ u. after_observation-Intact outputs handle o)

  pub observe-Intact :
      (n : ℕ) (p : Phase) (outputs : Json) (state : AttemptState) (q : Phase) (handle : Json)
      → Triple {S = S}
          (On (At n p))
          (observe env n outputs state q handle)
          (On Intact)
          (λ st. On Intact)
  unfolding observe
  observe-Intact n p outputs state submitted (obj handle) =
      Triple-bind {Q = λ o. On (At n p)}
        (Triple-bind {Q = λ a. On (At n p)} (Triple-gets _ (λ w a. a)) λ a.
          Triple-bind {Q = λ u. On (At n p)} (Triple-modify _ (λ w x. x))
            (λ u. Triple-pure a (λ w x. x)))
        (polled-Intact n p state outputs handle)
  observe-Intact n p outputs state _ _ = Triple-raise not_reconcilable (λ w a. a.sound)

  -- The newest try and its manifest.
  abbrev pub Shown : TryState → Fields → Condition
  Shown t doc d next subs = Newest t d next subs × (d.manifest t.number ≡ some (document doc))
