-- ===== src/Attempt/Additions.antt =====
-- The operations of attempt.py only add to a record's events and manifests.
pub mod Reconciling
use hedloom.Base.{ℕ, ◌≡◌, refl, String, Bool, true, false, Option, none, some}
use hedloom.Json.{Json, obj, Fields, end, get}
use hedloom.Result.{attempt_cancelled, terminal_without_manifest}
use hedloom.Journal.Types.{
  Phase, unsubmitted, intended, submitted, TryState, AttemptState, is_terminal, current,
}
use hedloom.Journal.World.{World, Exec, pure, raise, modify, durable, gets, ◌>>=◌, ◌>>◌}
use hedloom.Journal.Extends.{
  Extends-refl, Adds, Adds-bind, Adds-modify, Adds-durable, Adds-gets, Adds-lift, Adds-if,
  Adds-pure, Adds-raise, adds_rules,
}
use hedloom.Journal.Extends.Store.{
  store_rules, Adds-append, Adds-fold, Adds-begin_try, Adds-read_standing, Adds-claim,
}
use hedloom.Transport.{
  Submission, accepted, refused, raised, Discovery, found, not_found, discovery_raised,
}
use hedloom.Attempt.Env.{Env, select, select_bound, chosen_try, existing, repair, call_submit}
use hedloom.Attempt.Launch.{
  LaunchResult, completed, after_submit, record_created, record_placement, launch_new,
  settle_intent, call_discover, launch_phase, launch_unpublished, repaired_state, reuse_or_retry,
  launch_published, published_or_not, launch_current, stand, launch_standing, standing_or_current,
  launch_locked, launch_or_attach,
}

module _ {S : Type 0} (env : Env S) where
  Adds-select : (n : ℕ) (d : String) (b : Bool) (p : Fields) → Adds (select env n d b p)
  unfolding select
  Adds-select n d b p = Adds-modify _ (λ w. Extends-refl w.disk)

  Adds-chosen : (t : Option TryState) (d : String) → Adds (chosen_try env t d)
  Adds-chosen none d = search adds_rules
  Adds-chosen (some t) d = bound t.handle
    where
      bound : (h : Json) → Adds (select_bound env t.number d h)
      bound (obj handle) = search (adds_rules, Adds-select)
      bound _ = search adds_rules

  Adds-existing : (n : ℕ) (d : String) → Adds (existing env n d)
  unfolding existing
  Adds-existing n d = search (store_rules, Adds-select, Adds-chosen) depth 12

  pub Adds-repair : (n : ℕ) (doc : Fields) → Adds (repair env n doc)
  unfolding repair
  Adds-repair n doc = search store_rules

  Adds-call_submit : (n : ℕ) (bundle : Fields) → Adds (call_submit env n bundle)
  unfolding call_submit
  Adds-call_submit n bundle =
      Adds-bind _ _ (Adds-gets _)
        λ a. Adds-bind _ _ (Adds-durable _ (λ w. Extends-refl w.disk)) λ u. Adds-pure a

  Adds-completed : (state : AttemptState) (doc : Fields) → Adds (completed env state doc)
  unfolding completed
  Adds-completed state doc = search adds_rules depth 12

  Adds-after_submit : (n : ℕ) (s : Submission) → Adds (after_submit env n s)
  unfolding after_submit
  Adds-after_submit n (accepted handle) = search store_rules depth 12
  Adds-after_submit n (refused e) = search store_rules depth 12
  Adds-after_submit n (raised e) = search store_rules depth 12

  module _ (bundle : Fields) (work_dir : Option String) where
    Adds-launch_new : Adds (launch_new env bundle work_dir)
    unfolding launch_new record_created record_placement
    Adds-launch_new =
        search (store_rules, Adds-select, Adds-call_submit, Adds-after_submit) depth 30

    Adds-settle_intent : (n : ℕ) (d : Discovery) → Adds (settle_intent env n bundle work_dir d)
    unfolding settle_intent
    Adds-settle_intent n (found handle) = search (store_rules, Adds-existing) depth 16
    Adds-settle_intent n not_found = search (store_rules, Adds-launch_new) depth 12
    Adds-settle_intent n discovery_raised = search store_rules

    Adds-call_discover : (n : ℕ) → Adds (call_discover env n)
    unfolding call_discover
    Adds-call_discover n =
        Adds-bind _ _ (Adds-gets _)
          λ a. Adds-bind _ _ (Adds-modify _ (λ w. Extends-refl w.disk)) λ u. Adds-pure a

    Adds-launch_phase :
        (p : Phase) (n : ℕ) (state : AttemptState)
        → Adds (launch_phase env p n state bundle work_dir)
    unfolding launch_phase
    Adds-launch_phase submitted n state = search (store_rules, Adds-existing) depth 12
    Adds-launch_phase intended n state =
        search (store_rules, Adds-call_discover, Adds-settle_intent) depth 12
    Adds-launch_phase unsubmitted n state = Adds-launch_new
    Adds-launch_phase Phase.terminal n state = Adds-launch_new

    Adds-unpublished :
        (t : TryState) (state : AttemptState)
        → Adds (launch_unpublished env t state bundle work_dir)
    unfolding launch_unpublished
    Adds-unpublished t state = search (adds_rules, Adds-launch_phase)

    Adds-repaired :
        (b : Bool) (n : ℕ) (doc : Fields) (state : AttemptState)
        → Adds (repaired_state env b n doc state)
    Adds-repaired true n doc state = search adds_rules
    Adds-repaired false n doc state = search (store_rules, Adds-repair) depth 12

    Adds-published :
        (t : TryState) (doc : Fields) (state : AttemptState)
        → Adds (launch_published env t doc state bundle work_dir)
    unfolding launch_published reuse_or_retry
    Adds-published t doc state =
        search (store_rules, Adds-repaired, Adds-existing, Adds-completed, Adds-launch_new) depth 20

    Adds-current :
        (t : Option TryState) (state : AttemptState)
        → Adds (launch_current env t state bundle work_dir)
    unfolding launch_current
    Adds-current none state = Adds-launch_new
    Adds-current (some t) state = search (store_rules, branch) depth 12
      where
        branch : (o : Option Fields) → Adds (published_or_not env o t state bundle work_dir)
        branch none = Adds-unpublished t state
        branch (some doc) = Adds-published t doc state

    Adds-standing : (doc : Fields) (state : AttemptState) → Adds (launch_standing env doc state)
    unfolding launch_standing
    Adds-standing doc state =
        search (store_rules, Adds-repaired, Adds-existing, Adds-completed) depth 20

    pub Adds-launch_locked : Adds (launch_locked env bundle work_dir)
    unfolding launch_locked
    Adds-launch_locked =
        Adds-bind _ _ (Adds-modify _ (λ w. Extends-refl w.disk))
          λ u. search (store_rules, branch) depth 16
      where
        branch :
            (o : Option Fields) (state : AttemptState)
            → Adds (standing_or_current env o state bundle work_dir)
        branch none state = Adds-current (current state) state
        branch (some doc) state = Adds-standing doc state

    pub Adds-launch_or_attach : Adds (launch_or_attach env bundle work_dir)
    unfolding launch_or_attach
    Adds-launch_or_attach = Adds-claim _ Adds-launch_locked
