-- ===== src/Journal/Sound/Submit.antt =====
-- The write-ahead intent: after it, and only then, there is room for one submission.
use hedloom.Base.{ℕ, suc, ◌≤◌, ◌≡◌, refl, true, Option, some, List, ◌∷◌, ==_refl, arith}
use hedloom.Json.{Fields, natural, get}
use hedloom.Journal.Types.{EventName, JournalEvent, unsubmitted, intended}
use hedloom.Journal.World.{Disk, durable}
use hedloom.Journal.Store.{append}
use hedloom.Journal.Hoare.{Triple}
use hedloom.Journal.Ledger.{intents, submissions_of, is_about}
use hedloom.Journal.Ledger.Steps.{Ledger-submit, intents-snoc}
use hedloom.Journal.Sound.{Intact}
use hedloom.Journal.Sound.Append.{On, written, Triple-append, burn-ends}
use hedloom.Journal.Sound.Phases.{At, At-append, IsBacked-touch}

-- Try `n` announced a submission that was not made yet.
pub record Armed (n : ℕ) (d : Disk) (next : Option ℕ) (subs : List ℕ) : Type 0 where
  pub at : At n intended d next subs
  pub room : suc (submissions_of n subs) ≤ intents n at.sound.log

is_about_self :
    (n : ℕ) (e : JournalEvent) → natural (get "try" e.args) ≡ some n → is_about n e ≡ true
is_about_self n e h = rw (h, is_about) (==_refl n)

module _ {S : Type 0} (n : ℕ) where
  pub Triple-intent :
      (args : Fields)
      → natural (get "try" args) ≡ some n
      → Triple {S = S}
          (On (At n unsubmitted))
          (append EventName.submit_intent args)
          (On Intact)
          (λ u. On (Armed n))
  unfolding At-append
  Triple-intent args names =
      Triple-append EventName.submit_intent args (At n unsubmitted) (Armed n) refl names
        (λ d next subs a. a.sound)
        λ d next subs a seq at numbered.
          let e = written EventName.submit_intent args seq at in
          record {
            at =
                At-append a e names refl refl numbered
                  (IsBacked-touch d.manifest e EventName.submit_intent a.newest refl) (omega arith);
            room =
                ground (
                  arith,
                  a.sound.ledger.foreseen n,
                  intents-snoc n a.sound.log e,
                  is_about_self n e,
                );
          }

  -- A call of the substrate that the history of submissions records.
  pub Triple-submit :
      (f : S → S)
      → Triple {S = S}
          (On (Armed n))
          (durable (λ w. record w { outside = f w.outside; submissions = n ∷ w.submissions }))
          (On Intact)
          (λ u. On (At n intended))
  unfolding durable
  Triple-submit f = record {
    run = λ w p.
        burn-ends Intact (At n intended)
          (λ v. record v { outside = f v.outside; submissions = n ∷ v.submissions }) w.fuse w
          p.at.sound
          (record {
            sound = record {
              log = p.at.sound.log;
              view = p.at.sound.view;
              folds = p.at.sound.folds;
              lines = p.at.sound.lines;
              whole = p.at.sound.whole;
              made = p.at.sound.made;
              laid = p.at.sound.laid;
              cached = p.at.sound.cached;
              sequential = p.at.sound.sequential;
              familiar = p.at.sound.familiar;
              ledger = Ledger-submit n p.at.sound.ledger p.room;
            };
            newest = p.at.newest;
            older = p.at.older;
            head = p.at.head;
            number = p.at.number;
            phase = p.at.phase;
          });
  }
