-- ===== src/Journal/Claimed.antt =====
-- What holds of `with journal.claim()`, of the record that its body sees.
use hedloom.Base.{ℕ, zero, suc, ◌≡◌, ap, Bool, true, false, Option, none, some, ◌⊎◌, inl, inr}
use hedloom.Result.{Result, ok, err, concurrent_claim}
use hedloom.Journal.World.{Disk, World, Exec, modify, write, durable, burn, ◌>>◌}
use hedloom.Journal.Disk.{layout_check, created_record}
use hedloom.Journal.Store.{
  claim, create_if_missing, create_record, holding, release, require_layout, let_go,
}
use hedloom.Journal.Hoare.{
  Triple, Ends, Triple-bind, Triple-pure, Triple-raise, Triple-gets, Triple-ask, Triple-modify,
}

-- The record as it is under the claim, which makes its directory where there is none.
abbrev pub IsSeen : Disk → Disk → Type 0
IsSeen before d = (d ≡ before) ⊎ (d ≡ created_record before)

module _ {S : Type 0} (before : World S) where
  abbrev pub Start : World S → Type 0
  Start w = (w.outside ≡ before.outside) × (w.disk ≡ before.disk)

  abbrev pub Found : World S → Type 0
  Found w = (w.outside ≡ before.outside) × IsSeen before.disk w.disk

  module _ {A : Type 0} (I : S → Type 0) (Q : A → Disk → S → Type 0)
      (idle : (s : S) → s ≡ before.outside → I s) where
    abbrev Raised : World S → Type 0
    Raised w = I w.outside

    abbrev Returned : A → World S → Type 0
    Returned a w = Q a w.disk w.outside

    create-Found : (there : Bool) → Triple Start (create_if_missing there) Raised (λ u. Found)
    create-Found true = Triple-pure tt (λ w s. (s.0, inl s.1))
    create-Found false =
        unfold create_record write durable in record { run = λ w s. made w.fuse w s }
      where
        made :
            (fuse : Option ℕ) (w : World S)
            → Start w
            → Ends {A = Unit {0}} Raised
                (λ u. Found)
                (burn fuse (λ v. record v { disk = created_record v.disk }) w)
        made none w s = (s.0, inr (ap created_record s.1))
        made (some zero) w s = idle _ s.0
        made (some (suc k)) w s = (s.0, inr (ap created_record s.1))

    module _ (m : Exec S A) (t : Triple Found m Raised Returned) where
      released :
          (r : Result A × World S) → Ends Raised Returned r → Ends Raised Returned (r.0, let_go r.1)
      released (ok a, w) s = s
      released (err e, w) s = s

      holding-Found : (free : Bool) → Triple Found (holding free m) Raised Returned
      unfolding release require_layout
      holding-Found false = Triple-raise concurrent_claim (λ w s. idle _ s.0)
      holding-Found true = record {
        run = λ w s.
            released ((require_layout >> (modify (λ v. record v { claim_held = true }) >> m)) w) (
              (Triple-bind {Q = λ u. Found}
                  (Triple-ask (λ v. layout_check v.disk) (λ v i. idle _ i.0) (λ u v h i. i))
                  (λ u. Triple-bind {Q = λ v. Found} (Triple-modify _ (λ v i. i)) (λ v. t))).run
                w s);
      }

      -- The body sees the record as it was, or newly made, and the outside world as it was.
      pub claim-Found : Triple Start (claim m) Raised Returned
      unfolding claim
      claim-Found =
          Triple-bind {Q = λ there. Start} (Triple-gets (λ w. w.disk.exists) (λ w s. s)) λ there.
            Triple-bind {Q = λ u. Found} (create-Found there) λ u.
              Triple-bind {Q = λ free. Found} (Triple-gets (λ w. w.lock_free) (λ w s. s))
                holding-Found
