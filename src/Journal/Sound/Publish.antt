-- ===== src/Journal/Sound/Publish.antt =====
-- What `make_standing` and one write do to a sound record, and what a terminal event does to a try
-- whose manifest is visible.
pub mod Terminal
use hedloom.Base.{
  ℕ, ◌≤◌, ◌<◌, ◌≡◌, refl, ap, subst, ◌∙◌, Bool, true, false, not, ◌||◌, Option, none, some, List,
  length, ==_refl, is_some, str_eq, arith, String,
}
use hedloom.Json.{str, Fields, natural, get, is_null}
use hedloom.Result.{
  Error, ok, guard, or_raise, claim_not_held, no_manifest, manifest_exists, unknown_outcome,
}
use hedloom.Journal.Types.{
  EventName, JournalEvent, Phase, unsubmitted, TryState, is_outcome, is_outcome_value,
}
use hedloom.Journal.Fold.{touch}
use hedloom.Journal.World.{Document, document, Disk, World, pure, write, now}
use hedloom.Journal.Disk.{manifest_of, set_manifest, set_standing, outcome_document, terminal_args}
use hedloom.Journal.Store.{
  append, make_standing, publish_document, publish_known, publish_terminal, stand_if_succeeded,
}
use hedloom.Journal.Hoare.{
  Triple, Triple-bind, Triple-pure, Triple-ask, Triple-lift, Triple-gets, Triple-if, Triple-from,
}
use hedloom.Journal.Ledger.{IsBacked, IsManifest, phase_open, Numbered}
use hedloom.Journal.Ledger.Steps.{Ledger-publish, Ledger-stand}
use hedloom.Journal.Sound.{Intact}
use hedloom.Journal.Sound.Append.{Condition, On, burn-ends, written, Triple-append}
use hedloom.Journal.Sound.Phases.{At, At-append}

pub phase_open-le : (p : Phase) → phase_open p ≤ 1
phase_open-le unsubmitted = omega arith
phase_open-le _ = omega arith

-- The newest try has a visible manifest.
pub record Evident (n : ℕ) (p : Phase) (d : Disk) (next : Option ℕ) (subs : List ℕ) : Type 0 where
  pub at : At n p d next subs
  pub visible : is_some (d.manifest n) ≡ true

pub IsBacked-terminal :
    (manifest : ℕ → Option Document) (e : JournalEvent) (t : TryState) (n : ℕ)
    → t.number ≡ n
    → is_some (manifest n) ≡ true
    → (is_null (get "outcome" e.args) || is_outcome_value (get "outcome" e.args)) ≡ true
    → IsBacked manifest (touch e EventName.terminal t)
unfolding touch
IsBacked-terminal manifest e t n number there known = record {
  evidence = λ h. rw number there;
  outcome = known;
}

module _ {S : Type 0} where
  -- The terminal event of a try whose manifest is visible.
  pub Triple-terminal :
      (args : Fields) (n : ℕ) (p : Phase)
      → natural (get "try" args) ≡ some n
      → (is_null (get "outcome" args) || is_outcome_value (get "outcome" args)) ≡ true
      → Triple {S = S}
          (On (Evident n p))
          (append EventName.terminal args)
          (On Intact)
          (λ u. On (At n Phase.terminal))
  Triple-terminal args n p names known =
      Triple-append EventName.terminal args (Evident n p) (At n Phase.terminal) refl names
        (λ d next subs v. v.at.sound)
        λ d next subs v seq at numbered.
          At-append v.at (written EventName.terminal args seq at) names refl refl numbered
            (λ b.
              IsBacked-terminal d.manifest (written EventName.terminal args seq at) v.at.newest n
                v.at.number v.visible known)
            (omega (arith, phase_open-le p))

module _ {S : Type 0} (P Q : Condition) (f : Disk → Disk) where
  -- An atomic write of a manifest or of the standing result.
  pub Triple-write :
      ((d : Disk) (next : Option ℕ) (subs : List ℕ) → P d next subs → Intact d next subs)
      → ((d : Disk) (next : Option ℕ) (subs : List ℕ) → P d next subs → Q (f d) next subs)
      → Triple {S = S} (On P) (write f) (On Intact) (λ u. On Q)
  unfolding write
  Triple-write sound step = record {
    run = λ w p.
        burn-ends Intact Q (λ v. record v { disk = f v.disk }) w.fuse w
          (sound w.disk w.next_seq w.submissions p) (step w.disk w.next_seq w.submissions p);
  }

pub At-size :
    {n : ℕ} {p : Phase} {d : Disk} {next : Option ℕ} {subs : List ℕ} (a : At n p d next subs)
    → n < length a.sound.view.tries
At-size a =
    let l = subst Numbered a.head a.sound.ledger.numbered in
    rw a.head (omega (arith, l.0, a.number))

module _ {n : ℕ} {p : Phase} {d : Disk} {next : Option ℕ} {subs : List ℕ} (a : At n p d next subs)
    (doc : Fields) where
  pub Evident-publish :
      d.manifest n ≡ none → IsManifest n doc → Evident n p (set_manifest n doc d) next subs
  unfolding set_manifest
  Evident-publish absent good = record {
    at = record {
      sound = record {
        log = a.sound.log;
        view = a.sound.view;
        folds = a.sound.folds;
        lines = a.sound.lines;
        whole = a.sound.whole;
        made = a.sound.made;
        laid = a.sound.laid;
        cached = a.sound.cached;
        sequential = a.sound.sequential;
        familiar = a.sound.familiar;
        ledger = Ledger-publish d.manifest n doc a.sound.ledger absent good (At-size a);
      };
      newest = a.newest;
      older = a.older;
      head = a.head;
      number = a.number;
      phase = a.phase;
    };
    visible = rw (==_refl n);
  }

  pub At-stand :
      (m : ℕ) → d.manifest m ≡ some (document doc) → At n p (set_standing doc d) next subs
  unfolding set_standing
  At-stand m there = record {
    sound = record {
      log = a.sound.log;
      view = a.sound.view;
      folds = a.sound.folds;
      lines = a.sound.lines;
      whole = a.sound.whole;
      made = a.sound.made;
      laid = a.sound.laid;
      cached = a.sound.cached;
      sequential = a.sound.sequential;
      familiar = a.sound.familiar;
      ledger = Ledger-stand m (document doc) a.sound.ledger there;
    };
    newest = a.newest;
    older = a.older;
    head = a.head;
    number = a.number;
    phase = a.phase;
  }

-- What reading a manifest finds is the manifest.
pub manifest_of-some :
    (n : ℕ) (d : Disk) (doc : Fields)
    → manifest_of n d ≡ ok (some doc)
    → d.manifest n ≡ some (document doc)
unfolding manifest_of
manifest_of-some n d doc h = ground arith

pub guard-ok : (b : Bool) (e : Error) (u : Unit {0}) → guard b e ≡ ok u → b ≡ true
guard-ok true e u h = refl
guard-ok false e u h = cc

pub or_raise-ok : {A : Type 0} (o : Option A) (e : Error) (a : A) → or_raise o e ≡ ok a → o ≡ some a
or_raise-ok none e a h = cc
or_raise-ok (some x) e a h = cc

pub absent_of : (o : Option Document) → not (is_some o) ≡ true → o ≡ none
absent_of none h = refl
absent_of (some x) h = cc

module _ (m : ℕ) (p : Phase) where
  -- The reading of manifest `n`, with the newest try known.
  abbrev pub Reads : ℕ → Option Fields → Condition
  Reads n found d next subs = At m p d next subs × (manifest_of n d ≡ ok found)

  abbrev pub Finds : ℕ → Fields → Condition
  Finds n doc d next subs = At m p d next subs × (d.manifest n ≡ some (document doc))

  -- `make_standing` changes the standing result alone, to a manifest that is there.
  pub Triple-make_standing :
      {S : Type 0} (n : ℕ)
      → Triple {S = S} (On (At m p)) (make_standing n) (On Intact) (λ doc. On (At m p))
  unfolding make_standing
  Triple-make_standing n =
      Triple-bind
        (Triple-ask (λ w. guard w.claim_held claim_not_held) (λ w a. a.sound) (λ u w e a. a))
        λ u.
          Triple-bind {Q = λ found. On (Reads n found)}
            (Triple-ask (λ w. manifest_of n w.disk) (λ w a. a.sound) (λ found w e a. (a, e)))
            λ found.
              Triple-bind {Q = λ doc. On (Finds n doc)}
                (Triple-lift (or_raise found no_manifest) (λ w r. r.0.sound)
                  (λ doc w e r. (
                    r.0,
                    manifest_of-some n w.disk doc
                        (r.1 ∙ ap ok (or_raise-ok found no_manifest doc e)),
                  )))
                λ doc.
                  Triple-bind
                    (Triple-write (Finds n doc) (At m p) (set_standing doc)
                      (λ d next subs f. f.0.sound) (λ d next subs f. At-stand f.0 doc n f.1))
                    λ v. Triple-pure doc (λ w a. a)
