-- ===== src/Attempt/Additions/Reconciling.antt =====
-- `reconcile`, `request_cancel` and `accept_for_reuse` of attempt.py only add to a record.
use hedloom.Base.{ℕ, String, Option, none, some}
use hedloom.Json.{Json, null, obj, Fields}
use hedloom.Journal.Types.{Phase, submitted, TryState, AttemptState}
use hedloom.Journal.Store.{fold}
use hedloom.Journal.Extends.{
  Adds-lift, Extends-refl, Adds, Adds-bind, Adds-modify, Adds-gets, Adds-if, Adds-pure, Adds-raise,
}
use hedloom.Journal.Extends.Store.{store_rules, Adds-claim}
use hedloom.Transport.{Observed, absent, Observation, is_conclusive}
use hedloom.Attempt.Env.{Env, Capture, captured, missing}
use hedloom.Attempt.Reconcile.{
  publish, with_outputs, conclude, after_observation, call_poll, polled, observe, absent_detail,
  stand_repaired, reconcile_published, reconcile_found, reconcile_current, reconcile_locked,
  reconcile, tell_transport, cancel_current, request_cancel, accept_published, accept_current,
  accept_for_reuse,
}
use hedloom.Attempt.Additions.{Adds-repair}

module _ {S : Type 0} (env : Env S) where
  Adds-outputs :
      (n : ℕ) (o : Observed) (state : AttemptState) (handle detail : Fields) (c : Capture)
      → Adds (with_outputs env n o state handle detail c)
  Adds-outputs n o state handle detail (missing e) = search store_rules depth 12
  Adds-outputs n o state handle detail (captured xs) = search store_rules depth 12

  Adds-conclude :
      (n : ℕ) (outputs : Json) (state : AttemptState) (o : Observed) (handle observed : Fields)
      → Adds (conclude env n outputs state o handle observed)
  unfolding conclude
  Adds-conclude n outputs state o handle observed = Adds-bind _ _ (Adds-gets _) λ failure.
      Adds-bind _ _ (Adds-modify _ (λ w. Extends-refl w.disk))
        λ u. search (store_rules, Adds-outputs) depth 12

  Adds-after :
      (n : ℕ) (outputs : Json) (state : AttemptState) (handle : Fields) (o : Observation)
      → Adds (after_observation env n outputs state handle o)
  unfolding after_observation
  Adds-after n outputs state handle o =
      Adds-if (is_conclusive o.state) _ _ (search (store_rules, Adds-conclude) depth 12)
        (going o.state)
    where
      going :
          (s : Observed)
          → Adds (elim s [
            | absent ↦ publish env n "unreconciled" (absent_detail env handle)
            | _ ↦ fold
          ])
      going absent = search store_rules
      going _ = search store_rules

  Adds-polled :
      (n : ℕ) (outputs : Json) (state : AttemptState) (handle : Fields) (o : Option Observation)
      → Adds (polled env n outputs state handle o)
  Adds-polled n outputs state handle none = search store_rules
  Adds-polled n outputs state handle (some o) = search (store_rules, Adds-after) depth 12

  Adds-call_poll : (handle : Json) → Adds (call_poll env handle)
  Adds-call_poll handle =
      Adds-bind _ _ (Adds-gets _)
        λ a. Adds-bind _ _ (Adds-modify _ (λ w. Extends-refl w.disk)) λ u. Adds-pure a

  Adds-observe :
      (n : ℕ) (outputs : Json) (state : AttemptState) (p : Phase) (h : Json)
      → Adds (observe env n outputs state p h)
  unfolding observe
  Adds-observe n outputs state submitted (obj handle) =
      search (store_rules, Adds-call_poll, Adds-polled) depth 12
  Adds-observe n outputs state _ _ = Adds-raise _

  Adds-stand_repaired : (n : ℕ) (doc : Fields) → Adds (stand_repaired env n doc)
  Adds-stand_repaired n doc = search store_rules depth 12

  Adds-current :
      (outputs : Json) (state : AttemptState) (t : Option TryState)
      → Adds (reconcile_current env outputs state t)
  unfolding reconcile_published
  Adds-current outputs state none = search store_rules
  Adds-current outputs state (some t) = search (store_rules, found) depth 12
    where
      found : (o : Option Fields) → Adds (reconcile_found env outputs state t o)
      found none = search (store_rules, Adds-observe) depth 12
      found (some doc) = search (store_rules, Adds-repair, Adds-stand_repaired) depth 16

  pub Adds-reconcile_locked : (outputs : Json) → Adds (reconcile_locked env outputs)
  unfolding reconcile_locked
  Adds-reconcile_locked outputs = search (store_rules, Adds-current) depth 12

  pub Adds-reconcile : (outputs : Json) → Adds (reconcile env outputs)
  unfolding reconcile
  Adds-reconcile outputs = Adds-claim _ (Adds-reconcile_locked outputs)

  Adds-tell : (p : Phase) (h : Json) → Adds (tell_transport env p h)
  Adds-tell submitted null = Adds-pure tt
  Adds-tell submitted _ =
      Adds-bind _ _ (Adds-gets _)
        λ done. Adds-bind _ _ (Adds-modify _ (λ w. Extends-refl w.disk)) λ u. Adds-lift _
  Adds-tell _ h = Adds-pure tt

  pub Adds-request_cancel : (reason : String) → Adds (request_cancel env reason)
  unfolding request_cancel
  Adds-request_cancel reason = Adds-claim _ (search (store_rules, cancelled_at) depth 12)
    where
      cancelled_at : (t : Option TryState) → Adds (cancel_current env reason t)
      cancelled_at none = search store_rules
      cancelled_at (some t) = search (store_rules, Adds-tell) depth 20

  pub Adds-accept_for_reuse : (reason : String) → Adds (accept_for_reuse env reason)
  unfolding accept_for_reuse
  Adds-accept_for_reuse reason = Adds-claim _ (search (store_rules, at) depth 12)
    where
      published : (n : ℕ) (o : Option Fields) → Adds (accept_published env reason n o)
      published n none = search store_rules
      published n (some doc) = search store_rules depth 20

      at : (t : Option TryState) → Adds (accept_current env reason t)
      at none = search store_rules
      at (some t) = search (store_rules, published) depth 12
