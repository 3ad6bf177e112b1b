-- ===== src/Attempt/Launch/Resolve.antt =====
-- What a launch makes of a current try without a manifest.
pub mod Published
use hedloom.Base.{
  ℕ, ◌≡◌, refl, Bool, true, false, Option, none, some, List, ◌∷◌, String, Option-cases, inl, inr,
  arith,
}
use hedloom.Json.{Fields, get}
use hedloom.Result.{
  ok, or_raise, assertion_failed, unrecoverable, transport_failed, terminal_without_manifest,
  attempt_cancelled,
}
use hedloom.Journal.Types.{
  EventName, Phase, unsubmitted, intended, submitted, TryState, AttemptState, current, is_terminal,
  is_terminal_phase, is_outcome_value,
}
use hedloom.Journal.World.{Disk, document, ◌>>◌}
use hedloom.Journal.Disk.{manifest_of}
use hedloom.Journal.Store.{read_manifest}
use hedloom.Journal.Hoare.{
  Triple, Triple-bind, Triple-pure, Triple-raise, Triple-gets, Triple-if, Triple-from, Triple-ask,
  Triple-lift, Triple-modify,
}
use hedloom.Journal.Sound.{Intact}
use hedloom.Journal.Sound.Append.{Condition, On}
use hedloom.Journal.Sound.Phases.{At, Triple-append-At}
use hedloom.Journal.Sound.Begin.{Startable, Idle}
use hedloom.Journal.Sound.Publish.{Evident, Triple-make_standing, manifest_of-some, or_raise-ok}
use hedloom.Journal.Sound.Seen.{
  Triple-fold, Seen, Newest, Seen-none, Seen-head, Seen-some, At-Newest,
}
use hedloom.Transport.{Discovery, found, not_found, discovery_raised}
use hedloom.Attempt.Env.{Env, is_reusable, existing}
use hedloom.Attempt.Launch.{
  launch_new, launched, repaired_state, settle_intent, call_discover, launch_phase,
  launch_unpublished, reuse_or_retry, launch_published, published_or_not, launch_current,
  recovered_args, transport_args,
}
use hedloom.Attempt.Launch.Begin.{IsPlaced, launch_new-Intact}
use hedloom.Attempt.Launch.Existing.{
  Triple-existing, Triple-launched, Triple-completed, Triple-repair, IsManifest-published,
}

-- A record whose newest try is in an idle phase can start a launch.
pub Startable-At :
    (n : ℕ) (p : Phase) (d : Disk) (next : Option ℕ) (subs : List ℕ)
    → Idle p
    → At n p d next subs
    → Startable d next subs
Startable-At n p d next subs idle a = record { sound = a.sound; idle = rw a.head (rw a.phase idle) }

module _ {S : Type 0} (env : Env S) (bundle : Fields) (work_dir : Option String)
    (placed : IsPlaced bundle) where
  pub attached :
      (n : ℕ) (state : AttemptState)
      → Triple {S = S}
          (On Intact)
          (existing env n "attached" >> launched env "attached" state none)
          (On Intact)
          (λ r. On Intact)
  attached n state =
      Triple-bind (Triple-existing env n "attached")
        (λ u. Triple-launched env "attached" state none)

  pub new-At :
      (n : ℕ) (p : Phase)
      → Idle p
      → Triple {S = S} (On (At n p)) (launch_new env bundle work_dir) (On Intact) (λ r. On Intact)
  new-At n p idle =
      Triple-from (λ w a. Startable-At n p w.disk w.next_seq w.submissions idle a)
        (launch_new-Intact env bundle work_dir placed)

  pub settle_intent-Intact :
      (n : ℕ) (answer : Discovery)
      → Triple {S = S}
          (On (At n intended))
          (settle_intent env n bundle work_dir answer)
          (On Intact)
          (λ r. On Intact)
  unfolding settle_intent
  settle_intent-Intact n (found handle) =
      Triple-bind
        (Triple-append-At EventName.submit_receipt (recovered_args env n handle) n intended refl
          refl refl refl (omega arith))
        λ u. Triple-bind (Triple-from (λ w a. a.sound) (Triple-existing env n "attached")) λ u.
          Triple-bind
            (Triple-fold Intact (λ st. Intact) (λ d next subs s. s) (λ st d next subs s e. s))
            λ state. Triple-launched env "attached" state none
  settle_intent-Intact n not_found =
      Triple-if env.transport.discovery_is_authoritative _ _
        (λ e.
          Triple-bind
            (Triple-append-At EventName.submit_lost (transport_args env n) n intended refl refl refl
              refl (omega arith))
            (λ u. new-At n unsubmitted tt))
        (λ e. Triple-raise unrecoverable (λ w a. a.sound))
  settle_intent-Intact n discovery_raised = Triple-raise transport_failed (λ w a. a.sound)

  pub launch_phase-Intact :
      (n : ℕ) (p : Phase) (state : AttemptState)
      → Triple {S = S}
          (On (At n p))
          (launch_phase env p n state bundle work_dir)
          (On Intact)
          (λ r. On Intact)
  unfolding launch_phase call_discover
  launch_phase-Intact n submitted state = Triple-from (λ w a. a.sound) (attached n state)
  launch_phase-Intact n intended state =
      Triple-bind {Q = λ a. On (At n intended)}
        (Triple-bind {Q = λ a. On (At n intended)} (Triple-gets _ (λ w a. a)) λ a.
          Triple-bind {Q = λ a. On (At n intended)} (Triple-modify _ (λ w p. p))
            (λ u. Triple-pure a (λ w p. p)))
        (settle_intent-Intact n)
  launch_phase-Intact n unsubmitted state = new-At n unsubmitted tt
  launch_phase-Intact n Phase.terminal state = new-At n Phase.terminal tt

  pub launch_unpublished-Intact :
      (t : TryState) (state : AttemptState)
      → Triple {S = S}
          (On (Newest t))
          (launch_unpublished env t state bundle work_dir)
          (On Intact)
          (λ r. On Intact)
  unfolding launch_unpublished
  launch_unpublished-Intact t state =
      Triple-if (is_terminal t) _ _ (λ e. Triple-raise terminal_without_manifest (λ w n. n.sound))
        λ e.
          Triple-if t.cancel_requested _ _ (λ c. Triple-raise attempt_cancelled (λ w n. n.sound))
            λ c. Triple-from (λ w n. At-Newest n) (launch_phase-Intact t.number t.phase state)
