-- ===== src/Attempt/Launch/Existing.antt =====
-- The branches of a launch that find something: an attachment, a completed result, and the repair
-- of a terminal event that was lost.
use hedloom.Base.{
  ℕ, ◌≡◌, refl, subst, true, false, Option, none, some, List, [], ◌∷◌, String, is_some, arith, All,
  ◌||◌,
}
use hedloom.Json.{Json, null, obj, Fields, end, lookup, get, is_null}
use hedloom.Result.{no_such_try, borrowed_changed}
use hedloom.Journal.Types.{Phase, TryState, AttemptState, try_at, is_terminal, is_outcome_value}
use hedloom.Journal.World.{Document, document, pure}
use hedloom.Journal.Hoare.{Triple, Triple-bind, Triple-pure, Triple-raise, Triple-gets, Triple-if}
use hedloom.Journal.Ledger.{Settled, Published, IsManifest}
use hedloom.Journal.Sound.{Intact}
use hedloom.Journal.Sound.Append.{On}
use hedloom.Journal.Sound.Phases.{At}
use hedloom.Journal.Sound.Publish.{Evident, Triple-terminal}
use hedloom.Journal.Sound.Seen.{Triple-fold}
use hedloom.Attempt.Env.{Env, select_bound, chosen_try, existing, repair, repaired_args}
use hedloom.Attempt.Launch.{launched, completed}
use hedloom.Attempt.Launch.Begin.{Triple-select}

-- A manifest that is there is that of its try.
pub IsManifest-published :
    (size n : ℕ) (doc : Fields) (o : Option Document)
    → Published size n o
    → o ≡ some (document doc)
    → IsManifest n doc
IsManifest-published size n doc none p e = cc
IsManifest-published size n doc (some Document.unreadable_text) p e = absurd p
IsManifest-published size n doc (some (document fs)) p e = subst (IsManifest n) (same fs e) p.0
  where
    same : (fs : Fields) → some (document fs) ≡ some (document doc) → fs ≡ doc
    same fs h = cc

is_terminal-found :
    (n : ℕ) (ts : List TryState) (t : TryState)
    → All (λ u. is_terminal u ≡ true) ts
    → try_at n ts ≡ some t
    → is_terminal t ≡ true
is_terminal-found n [] t h e = cc
is_terminal-found n (u ∷ us) t h e = ground (arith, is_terminal-found n us t h.1)

-- A try that has not ended is the newest.
pub head-unended :
    (n : ℕ) (ts : List TryState) (t : TryState)
    → Settled ts
    → try_at n ts ≡ some t
    → is_terminal t ≡ false
    → (us : List TryState) × (ts ≡ t ∷ us)
head-unended n [] t h e going = cc
head-unended n (u ∷ us) t h e going = (us, ground (arith, is_terminal-found n us t h))

module _ {S : Type 0} (env : Env S) where
  select_bound-Triple :
      (n : ℕ) (disposition : String) (handle : Json)
      → Triple {S = S}
          (On Intact)
          (select_bound env n disposition handle)
          (On Intact)
          (λ u. On Intact)
  select_bound-Triple n disposition (obj fs) =
      Triple-if (is_some (lookup "workdir" fs)) _ (pure tt)
        (λ e. Triple-select env Intact n disposition true fs) (λ e. Triple-pure tt (λ w s. s))
  select_bound-Triple n disposition _ = Triple-pure tt (λ w s. s)

  chosen_try-Triple :
      (o : Option TryState) (disposition : String)
      → Triple {S = S} (On Intact) (chosen_try env o disposition) (On Intact) (λ u. On Intact)
  chosen_try-Triple none disposition = Triple-raise no_such_try (λ w s. s)
  chosen_try-Triple (some t) disposition = select_bound-Triple t.number disposition t.handle

  pub Triple-existing :
      (n : ℕ) (disposition : String)
      → Triple {S = S} (On Intact) (existing env n disposition) (On Intact) (λ u. On Intact)
  unfolding existing
  Triple-existing n disposition =
      Triple-bind (Triple-select env Intact n disposition false end) λ u.
        Triple-bind
          (Triple-fold Intact (λ st. Intact) (λ d next subs s. s) (λ st d next subs s e. s))
          λ st. chosen_try-Triple (try_at n st.tries) disposition

  pub Triple-launched :
      (disposition : String) (state : AttemptState) (manifest : Option Fields)
      → Triple {S = S}
          (On Intact)
          (launched env disposition state manifest)
          (On Intact)
          (λ r. On Intact)
  Triple-launched disposition state manifest = Triple-gets _ (λ w s. s)

  pub Triple-completed :
      (state : AttemptState) (doc : Fields)
      → Triple {S = S} (On Intact) (completed env state doc) (On Intact) (λ r. On Intact)
  unfolding completed
  Triple-completed state doc = Triple-bind {Q = λ b. On Intact} (Triple-gets _ (λ w s. s)) λ there.
      Triple-if there _ _ (λ e. Triple-launched "completed" state (some doc))
        (λ e. Triple-raise borrowed_changed (λ w s. s))

  -- The repair writes the outcome that the manifest holds.
  pub Triple-repair :
      (n : ℕ) (p : Phase) (doc : Fields)
      → is_outcome_value (get "outcome" doc) ≡ true
      → Triple {S = S}
          (On (Evident n p))
          (repair env n doc)
          (On Intact)
          (λ u. On (At n Phase.terminal))
  unfolding repair
  Triple-repair n p doc known =
      Triple-terminal (repaired_args env n doc) n p refl (known_or (get "outcome" doc) known)
    where
      known_or : (o : Json) → is_outcome_value o ≡ true → (is_null o || is_outcome_value o) ≡ true
      known_or null h = refl
      known_or _ h = h
