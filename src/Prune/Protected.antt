-- ===== src/Prune/Protected.antt =====
-- What a survey of prune.py never selects.
use hedloom.Base.{
  ℕ, ◌+◌, ◌≤◌, ◌≡◌, refl, String, true, false, Option, none, some, List, [], ◌∷◌, count, ltb, subst,
  ap, ◌∙◌, arith,
}
use mathlib.Core.List.{Memᴰ}
use mathlib.Core.List.Memᴰ.{head, tail}
use hedloom.Json.{Fields, get}
use hedloom.Result.{ok, ◌>>=?◌, >>=?-eq-ok}
use hedloom.Journal.Types.{TryState, AttemptState, is_terminal}
use hedloom.Journal.World.{Disk}
use hedloom.Journal.Disk.{manifest_of}
use hedloom.Prune.Policy.{RetentionRule, RetentionPolicy}
use hedloom.Prune.Conditions.{Names, IsOld, IsLarge, outcome-Names, young-IsOld, small-IsLarge}
use hedloom.Prune.Survey.{
  Site, Candidate, candidate, verdict, is_standing, is_pinned, text_is, published_verdict,
  rule_measures, selected_by, select_rule, choose, chosen, measured_verdict, timestamp,
  microseconds, is_directory,
}
use hedloom.Prune.Survey.Newest.{rank, terminal_numbers}
use hedloom.Prune.Survey.Ranks.{rank-newer}
use hedloom.Prune.Workspace.{workspace_bytes}

module _ (site : Site) (policy : RetentionPolicy) (floor : ℕ) (identity : String) (disk : Disk)
    (standing : Option Fields) (state : AttemptState) where
  -- What the first four tests of a round establish.
  pub record Unprotected (t : TryState) : Type 0 where
    pub ended : is_terminal t ≡ true
    pub decided : text_is "unreconciled" t.outcome ≡ false
    pub replaced : is_standing t.number standing ≡ false
    pub unpinned : is_pinned state t.number ≡ false
    pub published :
        (manifest_of t.number disk >>=? published_verdict site policy floor identity state t)
        ≡ verdict site policy floor identity disk standing state t

  Unprotected-verdict :
      (t : TryState) (c : Candidate)
      → verdict site policy floor identity disk standing state t ≡ ok (candidate c)
      → Unprotected t
  unfolding verdict
  Unprotected-verdict t c h = record {
    ended = ground arith;
    decided = ground arith;
    replaced = ground arith;
    unpinned = ground arith;
    published = ground arith;
  }

  -- What a rule's test establishes.
  pub record Matches (t : TryState) (published : ℕ) (rule : RetentionRule) (c : Candidate)
      : Type 0 where
    pub named : c.rule ≡ rule.name
    pub concerned : Names rule t.outcome
    pub old : IsOld site published rule.older_than
    pub large : IsLarge c.bytes rule.larger_than
    pub surplus : rule.keep_latest ≤ count (λ m. ltb t.number m) (terminal_numbers state.tries)
    pub measured : c.bytes ≡ workspace_bytes rule.keep_logs (site.workspace identity t.number)
    pub same_try : c.try_number ≡ t.number
    pub same_record : c.identity ≡ identity

  module _ (t : TryState) (manifest : Fields) (published : ℕ) where
    Matches-measures :
        (rule : RetentionRule) (m : ℕ)
        → rule_measures site identity t.number t.outcome manifest published
            (rank t.number state.tries)
            rule
          ≡ ok (some m)
        → Matches t published rule (
            selected_by site identity t.number t.outcome manifest published
              (rank t.number state.tries)
              rule
              m)
    unfolding rule_measures
    Matches-measures rule m h = record {
      named = refl;
      concerned = outcome-Names rule t.outcome (ground arith);
      old = young-IsOld site published rule.older_than (ground arith);
      large = small-IsLarge m rule.larger_than (ground arith);
      surplus = ground (arith, rank-newer t.number state.tries);
      measured = ground arith;
      same_try = refl;
      same_record = refl;
    }

    -- A selected try is selected by a rule of the policy.
    Matches-select_rule :
        (rules : List RetentionRule) (c : Candidate)
        → select_rule site identity t.number t.outcome manifest published
            (rank t.number state.tries)
            rules
          ≡ ok (some c)
        → (rule : RetentionRule) × Memᴰ rule rules × Matches t published rule c
    unfolding select_rule
    Matches-select_rule [] c h = cc
    Matches-select_rule (rule ∷ rules) c h =
        let (m, tested, rest) =
          >>=?-eq-ok
            (rule_measures site identity t.number t.outcome manifest published
              (rank t.number state.tries) rule)
            _ h in
        by (Matches-select_rule rules c) m tested rest
      where
        by :
            (select_rule site identity t.number t.outcome manifest published
                  (rank t.number state.tries)
                  rules
                ≡ ok (some c)
              → (r : RetentionRule) × Memᴰ r rules × Matches t published r c)
            → (m : Option ℕ)
            → rule_measures site identity t.number t.outcome manifest published
                (rank t.number state.tries)
                rule
              ≡ ok m
            → choose site identity t.number t.outcome manifest published
                (rank t.number state.tries)
                rule
                m
                (select_rule site identity t.number t.outcome manifest published
                  (rank t.number state.tries)
                  rules)
              ≡ ok (some c)
            → (r : RetentionRule) × Memᴰ r (rule ∷ rules) × Matches t published r c
        by later none tested rest = let (r, there, matches) = later rest in (r, tail there, matches)
        by later (some m) tested rest = (
          rule,
          head refl,
          subst (Matches t published rule) (same rest) (Matches-measures rule m tested),
        )
          where
            same : {a b : Candidate} → ok (some a) ≡ ok (some b) → a ≡ b
            same e = cc

  -- What makes a try a candidate.
  pub record Selected (t : TryState) (c : Candidate) : Type 0 where
    pub unprotected : Unprotected t
    pub manifest : Fields
    pub visible : manifest_of t.number disk ≡ ok (some manifest)
    pub published : ℕ
    pub dated : timestamp site (get "published_at" manifest) ≡ ok published
    pub past_floor : published + microseconds floor ≤ site.clock
    pub inside : site.within identity t.number ≡ true
    pub a_directory : is_directory (site.workspace identity t.number) ≡ true
    pub rule : RetentionRule
    pub listed : Memᴰ rule policy.rules
    pub matches : Matches t published rule c

  chosen-candidate :
      (n : ℕ) (o : Option Candidate) (c : Candidate)
      → ok (chosen identity n o) ≡ ok (candidate c)
      → o ≡ some c
  chosen-candidate n none c h = cc
  chosen-candidate n (some d) c h = cc

  Selected-measured :
      (t : TryState) (manifest : Fields) (published : ℕ) (c : Candidate)
      → measured_verdict site policy floor identity state t manifest published ≡ ok (candidate c)
      → (rule : RetentionRule) × Memᴰ rule policy.rules × Matches t published rule c
  unfolding measured_verdict
  Selected-measured t manifest published c h =
      let (o, found, chose) =
        >>=?-eq-ok
          (select_rule site identity t.number t.outcome manifest published
            (rank t.number state.tries) policy.rules)
          _ (selected h) in
      Matches-select_rule t manifest published policy.rules c
        (found ∙ ap ok (chosen-candidate t.number o c chose))
    where
      selected :
          measured_verdict site policy floor identity state t manifest published ≡ ok (candidate c)
          → (select_rule site identity t.number t.outcome manifest published
                (rank t.number state.tries)
                policy.rules
              >>=? λ o. ok (chosen identity t.number o))
            ≡ ok (candidate c)
      selected h = ground arith

  -- What the tests before the rules establish.
  record Published (t : TryState) (o : Option Fields) (c : Candidate) : Type 0 where
    manifest : Fields
    there : o ≡ some manifest
    published : ℕ
    dated : timestamp site (get "published_at" manifest) ≡ ok published
    past_floor : published + microseconds floor ≤ site.clock
    measured :
        measured_verdict site policy floor identity state t manifest published ≡ ok (candidate c)

  Published-verdict :
      (t : TryState) (o : Option Fields) (c : Candidate)
      → published_verdict site policy floor identity state t o ≡ ok (candidate c)
      → Published t o c
  Published-verdict t none c h = cc
  Published-verdict t (some manifest) c h =
      let (published, parsed, rest) =
        >>=?-eq-ok (timestamp site (get "published_at" manifest)) _ h in
      record {
        manifest = manifest;
        there = refl;
        published = published;
        dated = parsed;
        past_floor = ground arith;
        measured = ground arith;
      }

  measured-inside :
      (t : TryState) (manifest : Fields) (published : ℕ) (c : Candidate)
      → measured_verdict site policy floor identity state t manifest published ≡ ok (candidate c)
      → (site.within identity t.number ≡ true)
        × (is_directory (site.workspace identity t.number) ≡ true)
  unfolding measured_verdict
  measured-inside t manifest published c h = (ground arith, ground arith)

  pub Selected-verdict :
      (t : TryState) (c : Candidate)
      → verdict site policy floor identity disk standing state t ≡ ok (candidate c)
      → Selected t c
  Selected-verdict t c h =
      let u = Unprotected-verdict t c h in
      let (o, read, rest) = >>=?-eq-ok (manifest_of t.number disk) _ (u.published ∙ h) in
      let p = Published-verdict t o c rest in
      let place = measured-inside t p.manifest p.published c p.measured in
      let (rule, listed, matches) = Selected-measured t p.manifest p.published c p.measured in
      record {
        unprotected = u;
        manifest = p.manifest;
        visible = read ∙ ap ok p.there;
        published = p.published;
        dated = p.dated;
        past_floor = p.past_floor;
        inside = place.0;
        a_directory = place.1;
        rule = rule;
        listed = listed;
        matches = matches;
      }
