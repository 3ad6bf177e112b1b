-- ===== src/Journal/Sound/Claim.antt =====
-- `with journal.claim()`: the directory is created with its layout, and what runs under the claim
-- starts from an intact record.
use hedloom.Base.{
  ℕ, zero, suc, ◌≡◌, refl, Bool, true, false, Option, none, some, List, [], ◌⊎◌, inl, inr, arith,
}
use hedloom.Result.{Result, ok, err, concurrent_claim}
use hedloom.Journal.Fold.{nothing_folded, fold_loop}
use hedloom.Journal.World.{Disk, World, Exec, modify, write, durable, burn, ◌>>◌}
use hedloom.Journal.Disk.{layout_check, created_record}
use hedloom.Journal.Store.{
  claim, create_if_missing, create_record, holding, release, require_layout, let_go,
}
use hedloom.Journal.Hoare.{
  Triple, Ends, Triple-bind, Triple-pure, Triple-raise, Triple-gets, Triple-ask, Triple-modify,
}
use hedloom.Journal.Ledger.{Ledger}
use hedloom.Journal.Sound.{Intact}
use hedloom.Journal.Sound.Append.{Condition, On}

-- No directory yet.
pub record Missing (d : Disk) (next : Option ℕ) (subs : List ℕ) : Type 0 where
  pub gone : d.exists ≡ false
  pub lines : d.lines ≡ []
  pub whole : d.tail ≡ none
  pub bare : (n : ℕ) → d.manifest n ≡ none
  pub idle : d.standing ≡ none
  pub uncounted : next ≡ none
  pub unasked : subs ≡ []

-- A record that is intact, or that is not there yet.
abbrev pub Healthy : Condition
Healthy d next subs = Intact d next subs ⊎ Missing d next subs

-- Where nothing is recorded, nothing can disagree.
pub Ledger-Missing :
    {d : Disk} {next : Option ℕ} {subs : List ℕ}
    → Missing d next subs
    → Ledger d.manifest d.standing [] [] subs
Ledger-Missing m = record {
  numbered = tt;
  settled = tt;
  backed = tt;
  published = λ n. rw (m.bare n) tt;
  stands = rw m.idle tt;
  foreseen = λ n. rw m.unasked (omega arith);
  reopened = λ n. omega arith;
}

Intact-created :
    (d : Disk) (next : Option ℕ) (subs : List ℕ)
    → Missing d next subs
    → Intact (created_record d) next subs
unfolding created_record
Intact-created d next subs m = record {
  log = [];
  view = nothing_folded;
  folds = unfold fold_loop in refl;
  lines = m.lines;
  whole = m.whole;
  made = refl;
  laid = refl;
  cached = rw m.uncounted tt;
  sequential = tt;
  familiar = tt;
  ledger = Ledger-Missing m;
}

module _ {S : Type 0} where
  abbrev Noticed : Bool → World S → Type 0
  Noticed there w = On Healthy w × (w.disk.exists ≡ there)

  create-Intact :
      (there : Bool)
      → Triple {S = S} (Noticed there) (create_if_missing there) (On Healthy) (λ u. On Intact)
  create-Intact true = Triple-pure tt (λ w n. present w n.0 n.1)
    where
      present : (w : World S) → On Healthy w → w.disk.exists ≡ true → On Intact w
      present w (inl s) e = s
      present w (inr m) e = cc (m.gone)
  create-Intact false =
      unfold create_record write durable in
      record { run = λ w n. created w.fuse w (missing w n.0 n.1) }
    where
      missing : (w : World S) → On Healthy w → w.disk.exists ≡ false → On Missing w
      missing w (inl s) e = cc (s.made)
      missing w (inr m) e = m

      created :
          (fuse : Option ℕ) (w : World S)
          → On Missing w
          → Ends {A = Unit {0}}
              (On Healthy)
              (λ u. On Intact)
              (burn fuse (λ v. record v { disk = created_record v.disk }) w)
      created none w m = Intact-created w.disk w.next_seq w.submissions m
      created (some zero) w m = inr m
      created (some (suc k)) w m = Intact-created w.disk w.next_seq w.submissions m

module _ {S A : Type 0} (m : Exec S A) where
  release-ends :
      (r : Result A × World S)
      → Ends (On Intact) (λ a. On Intact) r
      → Ends (On Healthy) (λ a. On Intact) (r.0, let_go r.1)
  release-ends (ok a, w) s = s
  release-ends (err e, w) s = inl s

  module _ (t : Triple (On Intact) m (On Intact) (λ a. On Intact)) where
    holding-Intact :
        (free : Bool) → Triple (On Intact) (holding free m) (On Healthy) (λ a. On Intact)
    unfolding release require_layout
    holding-Intact false = Triple-raise concurrent_claim (λ w s. inl s)
    holding-Intact true = record {
      run = λ w s.
          release-ends ((require_layout >> (modify (λ v. record v { claim_held = true }) >> m)) w) (
            (Triple-bind {Q = λ u. On Intact}
                (Triple-ask (λ v. layout_check v.disk) (λ v i. i) (λ u v h i. i))
                (λ u. Triple-bind {Q = λ v. On Intact} (Triple-modify _ (λ v i. i)) (λ v. t))).run
              w s);
    }

    -- What keeps an intact record intact under the claim keeps a healthy record healthy as a whole.
    pub Triple-claim : Triple (On Healthy) (claim m) (On Healthy) (λ a. On Intact)
    unfolding claim
    Triple-claim =
        Triple-bind {Q = Noticed} (Triple-gets (λ w. w.disk.exists) (λ w h. (h, refl))) λ there.
          Triple-bind (create-Intact there) λ u.
            Triple-bind {Q = λ free. On Intact} (Triple-gets (λ w. w.lock_free) (λ w s. s))
              holding-Intact
