-- ===== src/Journal/Ledger/Steps.antt =====
-- How each durable step changes a `Ledger`.
use hedloom.Base.{
  ℕ, suc, ◌+◌, ◌≤◌, ◌<◌, ◌≡◌, refl, Bool, true, false, ◌&&◌, Option, none, some, List, [], ◌∷◌,
  ◌++◌, length, count-append, All, All-map, ◌==◌, if◌then◌else◌, arith, ==_iff, subst, sym, ◌∙◌,
  Bool-cases, inl, inr,
}
use hedloom.Json.{Fields, get, natural}
use hedloom.Journal.Types.{JournalEvent, TryState, is_terminal}
use hedloom.Journal.World.{Document, document}
use hedloom.Journal.Ledger.{
  is_about, is_intent, is_undoing, intents, undone, submissions_of, phase_open, opened, Numbered,
  IsManifest, IsBacked, Published, Stands, Ledger,
}

abbrev pub unit_of : Bool → ℕ
unit_of true = 1
unit_of false = 0

module _ (n : ℕ) (log : List JournalEvent) (e : JournalEvent) where
  pub intents-snoc :
      intents n (log ++ e ∷ []) ≡ intents n log + unit_of (is_intent e.event && is_about n e)
  intents-snoc = ground (arith, count-append (λ x. is_intent x.event && is_about n x) log (e ∷ []))

  pub undone-snoc :
      undone n (log ++ e ∷ []) ≡ undone n log + unit_of (is_undoing e.event && is_about n e)
  undone-snoc = ground (arith, count-append (λ x. is_undoing x.event && is_about n x) log (e ∷ []))

module _ {manifest : ℕ → Option Document} {standing : Option Document} {log : List JournalEvent}
    {subs : List ℕ} where
  -- An event that changes the newest try.
  pub Ledger-touch :
      (t t' : TryState) (ts : List TryState) (e : JournalEvent)
      → Ledger manifest standing (t ∷ ts) log subs
      → t'.number ≡ t.number
      → IsBacked manifest t'
      → natural (get "try" e.args) ≡ some t.number
      → unit_of (is_intent e.event) + phase_open t.phase
        ≤ unit_of (is_undoing e.event) + phase_open t'.phase
      → Ledger manifest standing (t' ∷ ts) (log ++ e ∷ []) subs
  Ledger-touch t t' ts e l same backed names budget = record {
    numbered = (same ∙ l.numbered.0, l.numbered.1);
    settled = l.settled;
    backed = (backed, l.backed.1);
    published = l.published;
    stands = l.stands;
    foreseen = λ n. ground (arith, l.foreseen n, intents-snoc n log e);
    reopened = λ n.
        ground
          (arith, l.reopened n, intents-snoc n log e, undone-snoc n log e, same, names, budget);
  }

  -- An event that neither announces nor undoes a submission, and changes no try.
  pub Ledger-note :
      {tries : List TryState} (e : JournalEvent)
      → Ledger manifest standing tries log subs
      → is_intent e.event ≡ false
      → is_undoing e.event ≡ false
      → Ledger manifest standing tries (log ++ e ∷ []) subs
  Ledger-note e l quiet kept = record {
    numbered = l.numbered;
    settled = l.settled;
    backed = l.backed;
    published = l.published;
    stands = l.stands;
    foreseen = λ n. ground (arith, l.foreseen n, intents-snoc n log e);
    reopened = λ n. ground (arith, l.reopened n, intents-snoc n log e, undone-snoc n log e);
  }

  -- A call of `submit` that an intent announced.
  pub Ledger-submit :
      {tries : List TryState} (n : ℕ)
      → Ledger manifest standing tries log subs
      → suc (submissions_of n subs) ≤ intents n log
      → Ledger manifest standing tries log (n ∷ subs)
  Ledger-submit n l room = record {
    numbered = l.numbered;
    settled = l.settled;
    backed = l.backed;
    published = l.published;
    stands = l.stands;
    foreseen = λ m. ground (arith, l.foreseen m);
    reopened = l.reopened;
  }

  pub Ledger-stand :
      {tries : List TryState} (n : ℕ) (doc : Document)
      → Ledger manifest standing tries log subs
      → manifest n ≡ some doc
      → Ledger manifest (some doc) tries log subs
  Ledger-stand n doc l there = record {
    numbered = l.numbered;
    settled = l.settled;
    backed = l.backed;
    published = l.published;
    stands = (n, there);
    foreseen = l.foreseen;
    reopened = l.reopened;
  }

-- A number that no try has yet has nothing open.
pub opened-fresh : (n : ℕ) (ts : List TryState) → Numbered ts → length ts ≤ n → opened n ts ≡ 0
opened-fresh n [] h fresh = refl
opened-fresh n (t ∷ ts) h fresh = ground (arith, opened-fresh n ts h.1)

Published-suc :
    (size n : ℕ) (doc : Option Document) → Published size n doc → Published (suc size) n doc
Published-suc size n none p = tt
Published-suc size n (some Document.unreadable_text) p = p
Published-suc size n (some (document fs)) p = (p.0, omega arith)

-- A new try, once all tries before it have ended.
pub Ledger-start :
    {manifest : ℕ → Option Document} {standing : Option Document} {log : List JournalEvent}
    {subs : List ℕ} (t : TryState) (ts : List TryState) (e : JournalEvent)
    → Ledger manifest standing ts log subs
    → All (λ u. is_terminal u ≡ true) ts
    → t.number ≡ length ts
    → IsBacked manifest t
    → is_intent e.event ≡ false
    → is_undoing e.event ≡ false
    → Ledger manifest standing (t ∷ ts) (log ++ e ∷ []) subs
Ledger-start {manifest = manifest} {log = log} t ts e l ended newest backed quiet kept = record {
  numbered = (newest, l.numbered);
  settled = ended;
  backed = (backed, l.backed);
  published = λ n. Published-suc (length ts) n (manifest n) (l.published n);
  stands = l.stands;
  foreseen = λ n. ground (arith, l.foreseen n, intents-snoc n log e);
  reopened = λ n. ground (
    arith,
    l.reopened n,
    intents-snoc n log e,
    undone-snoc n log e,
    opened-fresh n ts l.numbered,
    newest,
  );
}

module _ (manifest : ℕ → Option Document) (n : ℕ) (doc : Fields) where
  abbrev pub published_too : ℕ → Option Document
  published_too m = if m == n then some (document doc) else manifest m

  -- Publishing keeps every manifest that is there.
  pub published_too-keeps :
      (m : ℕ) {d : Document} → manifest n ≡ none → manifest m ≡ some d → published_too m ≡ some d
  published_too-keeps m absent there = elim (Bool-cases (m == n)) [
    | inl e ↦ absurd (grind (arith, subst (λ k. manifest k ≡ none) (sym ((==_iff m n).0 e)) absent))
    | inr e ↦ rw e there
  ]

  IsBacked-published :
      manifest n ≡ none → (t : TryState) → IsBacked manifest t → IsBacked published_too t
  IsBacked-published absent t b = record {
    evidence = λ h. ground (arith, b.evidence h);
    outcome = b.outcome;
  }

  Stands-published :
      (standing : Option Document)
      → manifest n ≡ none
      → Stands manifest standing
      → Stands published_too standing
  Stands-published none absent s = tt
  Stands-published (some d) absent s = (s.0, published_too-keeps s.0 absent s.1)

  Published-published :
      (size m : ℕ)
      → IsManifest n doc
      → n < size
      → Published size m (manifest m)
      → Published size m (published_too m)
  Published-published size m good inside p = elim (Bool-cases (m == n)) [
    | inl e ↦
        rw e (subst (λ k. IsManifest k doc × (k < size)) (sym ((==_iff m n).0 e)) (good, inside))
    | inr e ↦ rw e p
  ]

  -- A first manifest of a try that has one of the four outcomes.
  pub Ledger-publish :
      {standing : Option Document} {tries : List TryState} {log : List JournalEvent} {subs : List ℕ}
      → Ledger manifest standing tries log subs
      → manifest n ≡ none
      → IsManifest n doc
      → n < length tries
      → Ledger published_too standing tries log subs
  Ledger-publish {standing = standing} {tries = tries} l absent good inside = record {
    numbered = l.numbered;
    settled = l.settled;
    backed =
        All-map (IsBacked manifest) (IsBacked published_too) (IsBacked-published absent) tries
          l.backed;
    published = λ m. Published-published (length tries) m good inside (l.published m);
    stands = Stands-published standing absent l.stands;
    foreseen = l.foreseen;
    reopened = l.reopened;
  }
