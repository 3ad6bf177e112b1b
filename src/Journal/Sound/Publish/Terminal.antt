-- ===== src/Journal/Sound/Publish/Terminal.antt =====
-- `publish_terminal` keeps a record sound: the manifest, the standing result, then the event.
use hedloom.Base.{
  ℕ, ◌≡◌, refl, ap, ◌∙◌, Bool, true, not, Option, none, some, List, ==_refl, is_some, str_eq,
  String,
}
use hedloom.Json.{str, Fields}
use hedloom.Result.{guard, claim_not_held, manifest_exists, unknown_outcome}
use hedloom.Journal.Types.{Phase, is_outcome}
use hedloom.Journal.World.{document, Disk, World, pure, write, now}
use hedloom.Journal.Disk.{set_manifest, set_standing, outcome_document, terminal_args}
use hedloom.Journal.Store.{publish_document, publish_known, publish_terminal, stand_if_succeeded}
use hedloom.Journal.Hoare.{
  Triple, Triple-bind, Triple-pure, Triple-ask, Triple-lift, Triple-gets, Triple-if, Triple-from,
}
use hedloom.Journal.Ledger.{IsManifest}
use hedloom.Journal.Sound.{Intact}
use hedloom.Journal.Sound.Append.{Condition, On}
use hedloom.Journal.Sound.Phases.{At}
use hedloom.Journal.Sound.Publish.{
  Evident, Triple-terminal, Triple-write, Evident-publish, At-stand, guard-ok, absent_of,
}

module _ (n : ℕ) (p : Phase) (doc : Fields) where
  -- The manifest is out, its terminal event is not yet written.
  abbrev Out : Condition
  Out d next subs = Evident n p d next subs × (d.manifest n ≡ some (document doc))

  Out-stand :
      (d : Disk) (next : Option ℕ) (subs : List ℕ)
      → Out d next subs
      → Out (set_standing doc d) next subs
  unfolding set_standing
  Out-stand d next subs o = (record { at = At-stand o.0.at doc n o.1; visible = o.0.visible }, o.1)

  stand_if_succeeded-Out :
      {S : Type 0} (outcome : String)
      → Triple {S = S} (On Out) (stand_if_succeeded outcome doc) (On Intact) (λ u. On Out)
  stand_if_succeeded-Out outcome =
      Triple-if (str_eq outcome "succeeded") (write (set_standing doc)) (pure tt)
        (λ e. Triple-write Out Out (set_standing doc) (λ d next subs o. o.0.at.sound) Out-stand)
        (λ e. Triple-pure tt (λ w o. o))

  abbrev Clear : Condition
  Clear d next subs = At n p d next subs × (d.manifest n ≡ none)

  Clear-write :
      {S : Type 0}
      → IsManifest n doc
      → Triple {S = S} (On Clear) (write (set_manifest n doc)) (On Intact) (λ u. On Out)
  unfolding set_manifest
  Clear-write good =
      Triple-write Clear Out (set_manifest n doc) (λ d next subs c. c.0.sound)
        λ d next subs c. (Evident-publish c.0 doc c.1 good, rw (==_refl n))

  publish_document-At :
      {S : Type 0} (path outcome : String)
      → is_outcome outcome ≡ true
      → IsManifest n doc
      → Triple {S = S}
          (On Clear)
          (publish_document path n outcome doc)
          (On Intact)
          (λ d. On (At n Phase.terminal))
  publish_document-At path outcome known good = Triple-bind (Clear-write good) λ u.
      Triple-bind (stand_if_succeeded-Out outcome) λ v.
        Triple-bind
          (Triple-from (λ w o. o.0)
            (Triple-terminal (terminal_args n (str outcome) path) n p refl known))
          λ x. Triple-pure doc (λ w a. a)

module _ {S : Type 0} (n : ℕ) (p : Phase) where
  abbrev Unpublished : Bool → World S → Type 0
  Unpublished there w = On (At n p) w × (is_some (w.disk.manifest n) ≡ there)

  publish_known-At :
      (identity path outcome : String) (manifest : Fields)
      → is_outcome outcome ≡ true
      → Triple {S = S}
          (On (At n p))
          (publish_known identity path n outcome manifest)
          (On Intact)
          (λ doc. On (At n Phase.terminal))
  unfolding now
  publish_known-At identity path outcome manifest known =
      Triple-bind {Q = Unpublished}
        (Triple-gets (λ w. is_some (w.disk.manifest n)) (λ w a. (a, refl)))
        λ there.
          Triple-bind {Q = λ u. On (λ d next subs. At n p d next subs × (d.manifest n ≡ none))}
            (Triple-lift (guard (not there) manifest_exists) (λ w r. r.0.sound)
              (λ u w e r. (
                r.0,
                absent_of (w.disk.manifest n)
                    (ap not r.1 ∙ guard-ok (not there) manifest_exists u e),
              )))
            λ u.
              Triple-bind (record { run = λ w r. r })
                λ at.
                  publish_document-At n p (outcome_document identity n outcome at manifest) path
                    outcome known (record { names = refl; ends = known })

  -- `publish_terminal` ends the newest try. It writes a manifest only where none is, and the
  -- terminal event only after the manifest.
  pub Triple-publish_terminal :
      (identity path outcome : String) (manifest : Fields)
      → Triple {S = S}
          (On (At n p))
          (publish_terminal identity path n outcome manifest)
          (On Intact)
          (λ doc. On (At n Phase.terminal))
  unfolding publish_terminal
  Triple-publish_terminal identity path outcome manifest =
      Triple-bind
        (Triple-ask (λ w. guard w.claim_held claim_not_held) (λ w a. a.sound) (λ u w e a. a))
        λ u.
          Triple-bind {Q = λ v w. On (At n p) w × (is_outcome outcome ≡ true)}
            (Triple-lift (guard (is_outcome outcome) unknown_outcome) (λ w a. a.sound)
              (λ v w e a. (a, guard-ok (is_outcome outcome) unknown_outcome v e)))
            λ v. record {
              run = λ w a. (publish_known-At identity path outcome manifest a.1).run w a.0;
            }
