-- ===== src/Journal/Extends/Store.antt =====
-- The methods of `AttemptJournal` only add to events and manifests.
use hedloom.Base.{
  ℕ, ◌+◌, ◌≡◌, refl, sym, ap, ◌∙◌, [], append-nil, String, Bool, true, false, Option, none, some,
  is_some, Bool-cases, inl, inr,
}
use hedloom.Json.{Fields}
use hedloom.Journal.Types.{EventName, TryState, current}
use hedloom.Journal.World.{
  Document, Disk, World, Exec, lift, gets, modify, durable, write, now, ◌>>=◌,
}
use hedloom.Journal.Disk.{set_manifest, set_standing, created_record}
use hedloom.Journal.Store.{
  require_layout, fold, read_manifest, read_standing, create_record, create_if_missing, release,
  holding, claim, append, appended, resume_or_allocate, held, begin_try, make_standing,
  stand_if_succeeded, publish_document, publish_known, publish_terminal,
}
use hedloom.Journal.Extends.{
  Extends, Extends-refl, Extends-append, Extends-manifest, Adds, Adds-bind, Adds-durable,
  Adds-modify, Adds-same, Adds-lift, Adds-gets, Adds-if, Adds-pure, Adds-raise, bind-Extends,
  write-Extends, adds_rules,
}

same_lines : (d d' : Disk) → d'.lines ≡ d.lines → d'.manifest ≡ d.manifest → Extends d d'
same_lines d d' l m = record {
  more = [];
  lines = l ∙ sym (append-nil d.lines);
  manifests = λ n doc h. ap (λ (f : ℕ → Option Document). f n) m ∙ h;
}

module _ {S : Type 0} where
  Adds-require_layout : Adds (require_layout {S = S})
  unfolding require_layout
  Adds-require_layout = Adds-same _ (λ w. refl)

  pub Adds-fold : Adds (fold {S = S})
  unfolding fold
  Adds-fold = Adds-same _ (λ w. refl)

  pub Adds-read_manifest : (n : ℕ) → Adds (read_manifest {S = S} n)
  unfolding read_manifest
  Adds-read_manifest n = Adds-same _ (λ w. refl)

  pub Adds-read_standing : Adds (read_standing {S = S})
  unfolding read_standing
  Adds-read_standing = Adds-same _ (λ w. refl)

  Adds-now : Adds (now {S = S})
  unfolding now
  Adds-now = Adds-same _ (λ w. refl)

  Adds-held : Adds (held {S = S})
  Adds-held = Adds-same _ (λ w. refl)

  Adds-set_standing : (doc : Fields) → Adds (write {S = S} (set_standing doc))
  unfolding write set_standing
  Adds-set_standing doc = Adds-durable _ (λ w. same_lines w.disk _ refl refl)

  Adds-exists : Adds (modify {S = S} (λ w. record w { disk = record w.disk { exists = true } }))
  Adds-exists = Adds-modify _ (λ w. same_lines w.disk _ refl refl)

  Adds-appended :
      (name : EventName) (args : Fields) (at : String)
      → Adds (durable {S = S} (appended name args at))
  Adds-appended name args at = Adds-durable _ (λ w. Extends-append _ w.disk)

  pub Adds-append : (name : EventName) (args : Fields) → Adds (append {S = S} name args)
  unfolding append
  Adds-append name args =
      search (adds_rules, Adds-exists, Adds-require_layout, Adds-now, Adds-appended) depth 16

  pub Adds-begin_try : (actor : Fields) → Adds (begin_try {S = S} actor)
  unfolding begin_try
  Adds-begin_try actor =
      Adds-bind _ _ Adds-held λ u. Adds-bind _ _ Adds-fold λ state. tried (current state)
    where
      tried : (t : Option TryState) → Adds (resume_or_allocate {S = S} t actor)
      tried none = search (adds_rules, Adds-append)
      tried (some t) = search (adds_rules, Adds-append)

  pub Adds-make_standing : (n : ℕ) → Adds (make_standing {S = S} n)
  unfolding make_standing
  Adds-make_standing n = search (adds_rules, Adds-held, Adds-read_manifest, Adds-set_standing)

  Adds-stand : (outcome : String) (doc : Fields) → Adds (stand_if_succeeded {S = S} outcome doc)
  Adds-stand outcome doc = search (adds_rules, Adds-set_standing)

  -- The guard on an existing manifest is what keeps manifests immutable.
  Adds-document :
      (path : String) (n : ℕ) (outcome : String) (doc : Fields) (w : World S)
      → is_some (w.disk.manifest n) ≡ false
      → Extends w.disk (publish_document path n outcome doc w).1.disk
  Adds-document path n outcome doc w absent =
      bind-Extends _ _ w
        (write-Extends (set_manifest n doc) w (Extends-manifest n doc w.disk absent))
        λ u. search (adds_rules, Adds-stand, Adds-append) depth 12

  Adds-publish_known :
      (identity path : String) (n : ℕ) (outcome : String) (manifest : Fields)
      → Adds (publish_known {S = S} identity path n outcome manifest)
  unfolding ◌>>=◌ gets lift now
  Adds-publish_known identity path n outcome manifest = record {
    run = λ w. elim (Bool-cases (is_some (w.disk.manifest n))) [
      | inl e ↦ rw e (Extends-refl w.disk)
      | inr e ↦ rw e (Adds-document path n outcome _ (record w { ticks = w.ticks + 1 }) e)
    ];
  }

  pub Adds-publish_terminal :
      (identity path : String) (n : ℕ) (outcome : String) (manifest : Fields)
      → Adds (publish_terminal {S = S} identity path n outcome manifest)
  unfolding publish_terminal
  Adds-publish_terminal identity path n outcome manifest =
      search (adds_rules, Adds-held, Adds-publish_known) depth 12

  Adds-create : (there : Bool) → Adds (create_if_missing {S = S} there)
  unfolding create_record write created_record
  Adds-create true = Adds-pure tt
  Adds-create false = Adds-durable _ (λ w. same_lines w.disk _ refl refl)

  Adds-mark : Adds (modify {S = S} (λ w. record w { claim_held = true }))
  Adds-mark = Adds-modify _ (λ w. Extends-refl w.disk)

module _ {S A : Type 0} where
  Adds-release : (m : Exec S A) → Adds m → Adds (release m)
  unfolding release
  Adds-release m x = record { run = x.run }

  Adds-holding : (free : Bool) (m : Exec S A) → Adds m → Adds (holding free m)
  Adds-holding false m x = Adds-raise _
  Adds-holding true m x =
      Adds-release _ (Adds-bind _ _ Adds-require_layout λ u. Adds-bind _ _ Adds-mark λ v. x)

  pub Adds-claim : (m : Exec S A) → Adds m → Adds (claim m)
  unfolding claim
  Adds-claim m x = Adds-bind _ _ (Adds-gets _) λ there.
      Adds-bind _ _ (Adds-create there)
        λ u. Adds-bind _ _ (Adds-gets _) λ free. Adds-holding free m x

pub ruleset store_rules = (
  adds_rules, Adds-fold, Adds-read_manifest, Adds-read_standing, Adds-append, Adds-begin_try,
  Adds-make_standing, Adds-publish_terminal,
)
