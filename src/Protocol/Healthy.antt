-- ===== src/Protocol/Healthy.antt =====
-- The invariant of a record's life: it is healthy after any sequence of steps.
use hedloom.Base.{ℕ, refl, Option, none, some, inl, inr, str_eq}
use hedloom.Json.{Fields, get}
use hedloom.Result.{Result, ok, err}
use hedloom.Journal.World.{World}
use hedloom.Journal.Disk.{manifest_of}
use hedloom.Journal.Store.{read_manifest}
use hedloom.Journal.Hoare.{Triple, Ends, Triple-bind, Triple-pure, Triple-if, Triple-ask}
use hedloom.Journal.Sound.{Intact}
use hedloom.Journal.Sound.Append.{On}
use hedloom.Journal.Sound.Claim.{Healthy, Triple-claim}
use hedloom.Attempt.Env.{Env}
use hedloom.Attempt.Launch.{LaunchResult, launch_or_attach}
use hedloom.Attempt.Launch.Locked.{launch_locked-Intact}
use hedloom.Attempt.Reconcile.{reconcile, request_cancel, accept_for_reuse}
use hedloom.Attempt.Reconcile.Resolve.Current.{
  reconcile_locked-Intact, cancel_current-Intact, accept_current-Intact, fold-Seen,
}
use hedloom.Durability.{published_of, finish, execute_recorded}
use hedloom.Protocol.{
  Step, Reach, launch, execute, reconciling, cancel, accept, restart, here, next, untouched,
}

ends-Healthy :
    {S A : Type 0} (r : Result A × World S) → Ends (On Healthy) (λ a. On Intact) r → On Healthy r.1
ends-Healthy (ok a, w) s = inl s
ends-Healthy (err e, w) h = h

module _ {S : Type 0} (env : Env S) where
  published_of-Intact :
      (o : Option ℕ) → Triple {S = S} (On Intact) (published_of env o) (On Intact) (λ d. On Intact)
  unfolding read_manifest
  published_of-Intact none = Triple-pure none (λ w s. s)
  published_of-Intact (some n) = Triple-ask (λ w. manifest_of n w.disk) (λ w s. s) (λ o w h s. s)

  finish-Intact :
      (bundle : Fields) (l : LaunchResult)
      → Triple {S = S} (On Intact) (finish env bundle l) (On Intact) (λ r. On Intact)
  finish-Intact bundle l =
      Triple-if (str_eq l.disposition "completed") _ _ (λ e. Triple-pure _ (λ w s. s))
        λ e.
          Triple-bind (reconcile_locked-Intact env (get "outputs" bundle))
            λ st. Triple-bind (published_of-Intact st.current_try) λ d. Triple-pure _ (λ w s. s)

  -- Every step keeps a healthy record healthy, also when it raises or the process is killed in it.
  pub Step-Healthy : {w v : World S} → Step env w v → On Healthy w → On Healthy v
  unfolding launch_or_attach execute_recorded reconcile request_cancel accept_for_reuse
  Step-Healthy {w} (launch bundle work_dir placed) h =
      ends-Healthy _ ((Triple-claim _ (launch_locked-Intact env bundle work_dir placed)).run w h)
  Step-Healthy {w} (execute bundle work_dir placed) h = ends-Healthy _ (
      (Triple-claim _ (
          Triple-bind (launch_locked-Intact env bundle work_dir placed) (finish-Intact bundle))).run
        w h)
  Step-Healthy {w} (reconciling outputs) h =
      ends-Healthy _ ((Triple-claim _ (reconcile_locked-Intact env outputs)).run w h)
  Step-Healthy {w} (cancel reason) h =
      ends-Healthy _
        ((Triple-claim _ (Triple-bind (fold-Seen env) (cancel_current-Intact env reason))).run w h)
  Step-Healthy {w} (accept reason) h =
      ends-Healthy _
        ((Triple-claim _ (Triple-bind (fold-Seen env) (accept_current-Intact env reason))).run w h)
  Step-Healthy (restart lock_free clock fuse outside) (inl s) = inl (record {
    log = s.log;
    view = s.view;
    folds = s.folds;
    lines = s.lines;
    whole = s.whole;
    made = s.made;
    laid = s.laid;
    cached = tt;
    sequential = s.sequential;
    familiar = s.familiar;
    ledger = s.ledger;
  })
  Step-Healthy (restart lock_free clock fuse outside) (inr m) = inr (record {
    gone = m.gone;
    lines = m.lines;
    whole = m.whole;
    bare = m.bare;
    idle = m.idle;
    uncounted = refl;
    unasked = m.unasked;
  })

  pub Reach-Healthy : {w v : World S} → On Healthy w → Reach env w v → On Healthy v
  Reach-Healthy h here = h
  Reach-Healthy h (next r st) = Step-Healthy st (Reach-Healthy h r)

pub untouched-Healthy : {S : Type 0} (s : S) → On Healthy (untouched s)
untouched-Healthy s = inr (record {
  gone = refl;
  lines = refl;
  whole = refl;
  bare = λ n. refl;
  idle = refl;
  uncounted = refl;
  unasked = refl;
})
