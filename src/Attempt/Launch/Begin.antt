-- ===== src/Attempt/Launch/Begin.antt =====
-- A launch that begins or resumes a try keeps the record intact: the evidence is recorded, the intent
-- is made durable, and only then is the substrate asked.
use hedloom.Base.{
  ℕ, ◌≡◌, refl, ap, Bool, true, false, Option, none, some, any, String, arith, eq_iff,
}
use hedloom.Json.{
  Json, null, nat, Fields, end, field, lookup, get, put, merge, lookup-put, natural, fields_of,
  truthy,
}
use hedloom.Result.{submission_refused, submission_failed}
use hedloom.Journal.Types.{EventName, unsubmitted, intended, submitted, AttemptState}
use hedloom.Journal.World.{pure}
use hedloom.Journal.Hoare.{
  Triple, Triple-bind, Triple-pure, Triple-raise, Triple-gets, Triple-if, Triple-modify,
}
use hedloom.Journal.Sound.{Intact}
use hedloom.Journal.Sound.Append.{Condition, On}
use hedloom.Journal.Sound.Phases.{At, Triple-append-At}
use hedloom.Journal.Sound.Seen.{Triple-fold}
use hedloom.Journal.Sound.Begin.{Startable, Triple-begin_try}
use hedloom.Journal.Sound.Submit.{Armed, Triple-intent, Triple-submit}
use hedloom.Transport.{Submission, accepted, refused, raised}
use hedloom.Attempt.Env.{Env, bundle_for_try, select, call_submit}
use hedloom.Attempt.Launch.{
  is_created, transport_args, after_submit, record_created, record_placement, launch_new,
}

lookup-merge :
    (k : String) (d fs : Fields) → lookup k fs ≡ none → lookup k (merge d fs) ≡ lookup k d
lookup-merge k d end h = refl
lookup-merge k d (field j v fs) h =
    ground (arith, lookup-merge k (put j v d) fs, lookup-put j k v d, eq_iff j k)

-- The placement that a bundle carries has no key `try`.
abbrev pub IsPlaced : Fields → Type 0
IsPlaced bundle = lookup "try" (fields_of (get "placement" bundle)) ≡ none

module _ {S : Type 0} (env : Env S) where
  -- Selecting changes nothing that is durable.
  pub Triple-select :
      (c : Condition) (n : ℕ) (disposition : String) (bound : Bool) (prepared : Fields)
      → Triple {S = S} (On c) (select env n disposition bound prepared) (On Intact) (λ u. On c)
  unfolding select
  Triple-select c n disposition bound prepared = Triple-modify _ (λ w p. p)

  module _ (n : ℕ) where
    created-At :
        (bundle : Fields) (state : AttemptState)
        → Triple {S = S}
            (On (At n unsubmitted))
            (record_created env n bundle state)
            (On Intact)
            (λ u. On (At n unsubmitted))
    unfolding record_created
    created-At bundle state =
        Triple-if (any is_created state.events) (pure tt) _ (λ e. Triple-pure tt (λ w a. a))
          (λ e.
            Triple-append-At EventName.created _ n unsubmitted refl refl refl refl (omega arith))

    placement-names :
        (fs : Fields)
        → lookup "try" fs ≡ none
        → natural (get "try" (merge (field "try" (nat n) end) fs)) ≡ some n
    placement-names fs plain =
        ap (λ (o : Option Json). natural (elim o [ none ↦ null | some v ↦ v ]))
          (lookup-merge "try" (field "try" (nat n) end) fs plain)

    placement-At :
        (placement : Json)
        → lookup "try" (fields_of placement) ≡ none
        → Triple {S = S}
            (On (At n unsubmitted))
            (record_placement env n placement)
            (On Intact)
            (λ u. On (At n unsubmitted))
    unfolding record_placement
    placement-At placement plain =
        Triple-if (truthy placement) _ (pure tt)
          (λ e.
            Triple-append-At EventName.placement _ n unsubmitted refl refl refl
              (placement-names (fields_of placement) plain) (omega arith))
          (λ e. Triple-pure tt (λ w a. a))

    after_submit-Intact :
        (answer : Submission)
        → Triple {S = S}
            (On (At n intended))
            (after_submit env n answer)
            (On Intact)
            (λ r. On Intact)
    unfolding after_submit
    after_submit-Intact (accepted handle) =
        Triple-bind
          (Triple-append-At EventName.submit_receipt _ n intended refl refl refl refl (omega arith))
          λ u.
            Triple-bind
              (Triple-fold (At n submitted) (λ st. Intact) (λ d next subs a. a.sound)
                (λ st d next subs a e. a.sound))
              λ st. Triple-gets _ (λ w s. s)
    after_submit-Intact (refused error) =
        Triple-bind
          (Triple-append-At EventName.submit_refused _ n intended refl refl refl refl (omega arith))
          λ u. Triple-raise submission_refused (λ w a. a.sound)
    after_submit-Intact (raised error) =
        Triple-bind
          (Triple-append-At EventName.submit_indeterminate _ n intended refl refl refl refl
            (omega arith))
          λ u. Triple-raise submission_failed (λ w a. a.sound)

    call_submit-At :
        (bundle : Fields)
        → Triple {S = S}
            (On (Armed n))
            (call_submit env n bundle)
            (On Intact)
            (λ a. On (At n intended))
    unfolding call_submit
    call_submit-At bundle = Triple-bind {Q = λ a. On (Armed n)} (Triple-gets _ (λ w p. p)) λ a.
        Triple-bind (Triple-submit n (λ s. (env.transport.submit (env.try_name n) bundle s).1))
          λ u. Triple-pure a (λ w p. p)

  pub launch_new-Intact :
      (bundle : Fields) (work_dir : Option String)
      → IsPlaced bundle
      → Triple {S = S} (On Startable) (launch_new env bundle work_dir) (On Intact) (λ r. On Intact)
  unfolding launch_new
  launch_new-Intact bundle work_dir plain = Triple-bind Triple-begin_try λ n.
      Triple-bind (Triple-select (At n unsubmitted) n "claimed" false end) λ u.
        Triple-bind
          (Triple-fold (At n unsubmitted) (λ st. At n unsubmitted) (λ d next subs a. a.sound)
            (λ st d next subs a e. a))
          λ state. Triple-bind (created-At n bundle state) λ u.
            Triple-bind
              (Triple-select (At n unsubmitted) n "claimed" true
                (bundle_for_try env bundle n work_dir))
              λ u. Triple-bind (placement-At n (get "placement" bundle) plain) λ u.
                Triple-bind
                  (Triple-append-At EventName.inputs_bound _ n unsubmitted refl refl refl refl
                    (omega arith))
                  λ u. Triple-bind (Triple-intent n (transport_args env n) refl) λ u.
                    Triple-bind (call_submit-At n (bundle_for_try env bundle n work_dir))
                      λ answer. after_submit-Intact n answer
