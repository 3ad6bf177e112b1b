-- ===== src/Protocol/Promises.antt =====
-- What a record's readers may rely on after any sequence of the operations of journal.py, attempt.py
-- and durability.py, in one process or many.
use hedloom.Base.{
  ℕ, ◌+◌, ◌≤◌, ◌<◌, ◌≡◌, refl, sym, ap, ◌∙◌, true, false, Option, none, some, is_some, List, length,
  subst, arith,
}
use hedloom.Json.{Fields}
use hedloom.Result.{ok}
use hedloom.Journal.Types.{JournalEvent, TryState, AttemptState, is_terminal, try_at, current}
use hedloom.Journal.Fold.Sorting.{state_of, current-state_of, try_at-sort_tries}
use hedloom.Journal.World.{World, Document, document}
use hedloom.Journal.Disk.{events_of, fold_disk, snapshot, manifest_of, standing_of, read_document}
use hedloom.Journal.Ledger.{
  intents, undone, submissions_of, IsBacked, IsManifest, Published, Stands,
}
use hedloom.Journal.Ledger.Lookup.{
  opened_one, try_at-number, try_at-All, try_at-exists, live-newest,
}
use hedloom.Attempt.Env.{Env}
use hedloom.Protocol.{Reach, untouched}
use hedloom.Protocol.Healthy.{Reach-Healthy, untouched-Healthy}
use hedloom.Protocol.Shown.{Shown, snapshot_of, Healthy-Shown}

abbrev Life : {S : Type 0} → Env S → S → World S → Type 0
Life env s w = Reach env (untouched s) w

shown : {S : Type 0} {env : Env S} {s : S} {w : World S} → Life env s w → Shown w.disk w.submissions
shown {s = s} {w = w} life =
    Healthy-Shown w.disk w.next_seq w.submissions (Reach-Healthy _ (untouched-Healthy s) life)

ok-injective : {A : Type 0} (a b : A) → ok a ≡ ok b → a ≡ b
ok-injective a b h = cc

module _ {S : Type 0} {env : Env S} {s : S} {w : World S} (life : Life env s w) where
  log-Shown : {log : List JournalEvent} → events_of w.disk ≡ ok log → (shown life).log ≡ log
  log-Shown {log} read = ok-injective _ _ (sym (shown life).read ∙ read)

  -- After any life of a record, a try was submitted at most once more often than its submissions
  -- were refused by the substrate or declared lost on authoritative discovery.
  pub no_duplicate_submission :
      (n : ℕ) (log : List JournalEvent)
      → events_of w.disk ≡ ok log
      → submissions_of n w.submissions ≤ 1 + undone n log
  no_duplicate_submission n log read =
      let v = shown life in
      subst (λ es. submissions_of n w.submissions ≤ 1 + undone n es) (log-Shown read)
        (omega (arith, v.ledger.foreseen n, v.ledger.reopened n, opened_one n v.view.tries))

  -- After any life of a record, a kill in the middle of a launch included, its log announces at least
  -- as many submissions of a try as were made.
  pub intent_before_submission :
      (n : ℕ) (log : List JournalEvent)
      → events_of w.disk ≡ ok log
      → submissions_of n w.submissions ≤ intents n log
  intent_before_submission n log read =
      subst (λ es. submissions_of n w.submissions ≤ intents n es) (log-Shown read)
        ((shown life).ledger.foreseen n)

  -- After any life of a record, its journal folds, and a lock-free snapshot is complete and the same, or
  -- finds no log file, where nothing has been logged yet.
  pub always_readable :
      (st : AttemptState) × (fold_disk w.disk ≡ ok st) × (snapshot w.disk ≡ snapshot_of st w.disk)
  always_readable = let v = shown life in (state_of v.log v.view, v.folded, v.snapped)

  state-Shown :
      {st : AttemptState}
      → fold_disk w.disk ≡ ok st
      → st ≡ state_of (shown life).log (shown life).view
  state-Shown folded = ok-injective _ _ (sym folded ∙ (shown life).folded)

  try_at-Shown :
      {st : AttemptState} (n : ℕ)
      → fold_disk w.disk ≡ ok st
      → try_at n st.tries ≡ try_at n (shown life).view.tries
  try_at-Shown n folded =
      ap (λ (x : AttemptState). try_at n x.tries) (state-Shown folded)
      ∙ try_at-sort_tries n (shown life).view.tries (shown life).ledger.numbered

  manifest_of-Shown :
      (n : ℕ) (doc : Fields)
      → w.disk.manifest n ≡ some (document doc)
      → manifest_of n w.disk ≡ ok (some doc)
  unfolding manifest_of
  manifest_of-Shown n doc there = rw ((shown life).laid, there) refl

  -- After any life of a record, a try that its fold shows as terminal has a readable manifest, which
  -- names that try and one of the four outcomes.
  pub terminal_is_published :
      (st : AttemptState) (n : ℕ) (t : TryState)
      → fold_disk w.disk ≡ ok st
      → try_at n st.tries ≡ some t
      → is_terminal t ≡ true
      → (doc : Fields) × (manifest_of n w.disk ≡ ok (some doc)) × IsManifest n doc
  terminal_is_published st n t folded there ended =
      let v = shown life in
      let at = sym (try_at-Shown n folded) ∙ there in
      let backed = try_at-All (IsBacked w.disk.manifest) n v.view.tries t v.ledger.backed at in
      readable (w.disk.manifest n) refl
        (subst (λ k. is_some (w.disk.manifest k) ≡ true) (try_at-number n v.view.tries t at)
          (backed.evidence ended))
        (v.ledger.published n)
    where
      readable :
          (o : Option Document)
          → w.disk.manifest n ≡ o
          → is_some o ≡ true
          → Published (length (shown life).view.tries) n o
          → (doc : Fields) × (manifest_of n w.disk ≡ ok (some doc)) × IsManifest n doc
      readable none e k p = cc
      readable (some Document.unreadable_text) e k p = absurd p
      readable (some (document doc)) e k p = (doc, manifest_of-Shown n doc e, p.0)

  -- After any life of a record, the standing result is the manifest of one of its tries.
  pub standing_is_published :
      (doc : Fields)
      → standing_of w.disk ≡ ok (some doc)
      → (n : ℕ) × (manifest_of n w.disk ≡ ok (some doc)) × IsManifest n doc
  unfolding standing_of
  standing_is_published doc read =
      stood w.disk.standing (shown life).ledger.stands (rw (shown life).laid at read)
    where
      published :
          (n : ℕ) (o : Option Document)
          → w.disk.manifest n ≡ o
          → o ≡ some (document doc)
          → Published (length (shown life).view.tries) n o
          → IsManifest n doc
      published n none e k p = cc
      published n (some Document.unreadable_text) e k p = absurd p
      published n (some (document fs)) e k p = subst (IsManifest n) (same fs k) p.0
        where
          same : (fs : Fields) → some (document fs) ≡ some (document doc) → fs ≡ doc
          same fs k = cc

      stood :
          (o : Option Document)
          → Stands w.disk.manifest o
          → read_document o ≡ ok (some doc)
          → (n : ℕ) × (manifest_of n w.disk ≡ ok (some doc)) × IsManifest n doc
      stood none p e = cc
      stood (some Document.unreadable_text) p e = cc
      stood (some (document fs)) p e =
          let there = p.1 ∙ ap (λ d. some (document d)) (same fs e) in
          (
            p.0,
            manifest_of-Shown p.0 doc there,
            published p.0 (w.disk.manifest p.0) refl there ((shown life).ledger.published p.0),
          )
        where
          same : (fs : Fields) → read_document (some (document fs)) ≡ ok (some doc) → fs ≡ doc
          same fs e = cc

  -- After any life of a record, only its current try can be live: every other one has ended.
  pub only_the_current_try_is_live :
      (st : AttemptState) (n : ℕ) (t : TryState)
      → fold_disk w.disk ≡ ok st
      → try_at n st.tries ≡ some t
      → is_terminal t ≡ false
      → current st ≡ some t
  only_the_current_try_is_live st n t folded there live =
      let v = shown life in
      ap current (state-Shown folded)
      ∙ current-state_of v.log v.view.tries v.view.pins v.ledger.numbered
      ∙ live-newest n v.view.tries t v.ledger.settled (sym (try_at-Shown n folded) ∙ there) live

  -- After any life of a record, a manifest that can be read belongs to a try of its fold.
  pub manifest_belongs_to_a_try :
      (st : AttemptState) (n : ℕ) (doc : Fields)
      → fold_disk w.disk ≡ ok st
      → manifest_of n w.disk ≡ ok (some doc)
      → (t : TryState) × (try_at n st.tries ≡ some t)
  unfolding manifest_of
  manifest_belongs_to_a_try st n doc folded read =
      let v = shown life in
      let (t, at) =
        try_at-exists n v.view.tries v.ledger.numbered
          (inside (w.disk.manifest n) (v.ledger.published n) (rw v.laid at read)) in
      (t, try_at-Shown n folded ∙ at)
    where
      inside :
          (o : Option Document)
          → Published (length (shown life).view.tries) n o
          → read_document o ≡ ok (some doc)
          → n < length (shown life).view.tries
      inside none p e = cc
      inside (some Document.unreadable_text) p e = absurd p
      inside (some (document fs)) p e = p.1
