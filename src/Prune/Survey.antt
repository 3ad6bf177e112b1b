-- ===== src/Prune/Survey.antt =====
-- `survey`: each try of each record is a candidate for removal or is skipped for a reason.
pub mod Newest
pub mod Ranks
use hedloom.Base.{
  ◌*◌, ℕ, suc, ◌+◌, String, Bool, true, false, not, ◌&&◌, ◌||◌, Option, none, some, List, [], ◌∷◌,
  ◌++◌, any, ltb, leb, ◌==◌, str_eq, is_some, if◌then◌else◌,
}
use hedloom.Json.{Json, str, Fields, get, fields_of, items_of, lookup}
use hedloom.Result.{Result, ok, err, ◌>>=?◌, retention_error}
use hedloom.Journal.Types.{TryState, AttemptState, is_terminal, Pin, is_active}
use hedloom.Journal.World.{Disk}
use hedloom.Journal.Disk.{fold_disk, manifest_of, standing_of}
use hedloom.Prune.Units.{duration, size}
use hedloom.Prune.Policy.{RetentionRule, RetentionPolicy, names_outcome}
use hedloom.Prune.Workspace.{Node, directory, link, workspace_bytes}
use hedloom.Prune.Survey.Newest.{rank, terminal_numbers}

-- What a survey reads besides the records: the clock and `datetime.fromisoformat` in microseconds, the
-- workspaces by record and try, and whether a path stays below the root.
pub record Site : Type 0 where
  pub clock : ℕ
  pub microseconds_at : String → Option ℕ
  pub workspace : String → ℕ → Option Node
  pub within : String → ℕ → Bool

pub record Candidate : Type 0 where
  pub identity : String
  pub try_number : ℕ
  pub bytes : ℕ
  pub outcome : Json
  pub rule : String

pub data SkipReason : Type 0 where
  pinned floor unreconciled contended reusable non_terminal outside_roots no_rule : SkipReason

pub record Skip : Type 0 where
  pub identity : String
  pub try_number : Option ℕ
  pub reason : SkipReason

pub data Verdict : Type 0 where
  candidate : Candidate → Verdict
  skip : Skip → Verdict

-- `_timestamp`
abbrev pub timestamp : Site → Json → Result ℕ
timestamp site (str text) = elim (site.microseconds_at text) [
  | none ↦ err retention_error
  | some n ↦ ok n
]
timestamp site _ = err retention_error

abbrev pub text_is : String → Json → Bool
text_is s (str t) = str_eq t s
text_is s _ = false

abbrev pub outcome_in : Json → List String → Bool
outcome_in (str o) os = names_outcome o os
outcome_in _ os = false

-- `number == standing_try`; a truth value is a number in Python
abbrev pub equals_number : ℕ → Json → Bool
equals_number n (Json.nat m) = m == n
equals_number n (Json.bool true) = n == 1
equals_number n (Json.bool false) = n == 0
equals_number n _ = false

abbrev pub is_standing : ℕ → Option Fields → Bool
is_standing n none = false
is_standing n (some doc) = equals_number n (get "try" doc)

-- `_is_pinned`
abbrev pub is_pinned : AttemptState → ℕ → Bool
is_pinned state n = any (λ p. (p.try_number == n) && is_active p) state.pins

abbrev known_kind : Json → Bool
known_kind artifact =
    let kind = get "kind" (fields_of artifact) in
    text_is "file" kind || text_is "directory" kind || text_is "stream" kind || text_is "value" kind

-- `_validate_artifact_kinds`
abbrev validate_kinds : List Json → Result (Unit {0})
validate_kinds [] = ok tt
validate_kinds (a ∷ rest) = if known_kind a then validate_kinds rest else err retention_error

abbrev pub kinds_checked : Option String → Fields → Result (Unit {0})
kinds_checked none manifest = ok tt
kinds_checked (some text) manifest =
    validate_kinds (items_of (get "artifacts" (fields_of (get "result" manifest))))

abbrev pub microseconds : ℕ → ℕ
microseconds seconds = seconds * 1000000

-- `older_than is not None and now - published < _duration(older_than)`
abbrev pub too_young : Site → ℕ → Option String → Result Bool
too_young site published none = ok false
too_young site published (some text) =
    duration text >>=? λ d. ok (ltb site.clock (published + microseconds d))

abbrev pub too_small : ℕ → Option String → Result Bool
too_small measured none = ok false
too_small measured (some text) = size text >>=? λ s. ok (ltb measured s)

abbrev pub is_none_named : List String → Bool
is_none_named [] = true
is_none_named (o ∷ os) = false

module _ (site : Site) (identity : String) (n : ℕ) (outcome : Json) (manifest : Fields)
    (published : ℕ) (place : ℕ) where
  -- The conditions of one rule, in the loop's order: what it measured, where all of them hold.
  unfoldable pub rule_measures : RetentionRule → Result (Option ℕ)
  unfolding duration size
  rule_measures rule =
      if ltb place rule.keep_latest
      then ok none
      else if not (is_none_named rule.outcome) && not (outcome_in outcome rule.outcome)
      then ok none
      else (too_young site published rule.older_than >>=? λ young.
          if young
          then ok none
          else (kinds_checked rule.larger_than manifest >>=? λ _.
              let measured = workspace_bytes rule.keep_logs (site.workspace identity n) in
              too_small measured rule.larger_than >>=? λ small.
              ok (if small then none else some measured)))

  abbrev pub selected_by : RetentionRule → ℕ → Candidate
  selected_by rule measured = record {
    identity = identity;
    try_number = n;
    bytes = measured;
    outcome = outcome;
    rule = rule.name;
  }

  abbrev pub choose :
      RetentionRule → Option ℕ → Result (Option Candidate) → Result (Option Candidate)
  choose rule none rest = rest
  choose rule (some measured) rest = ok (some (selected_by rule measured))

  -- The first rule that selects the try.
  unfoldable pub select_rule : List RetentionRule → Result (Option Candidate)
  unfolding rule_measures
  select_rule [] = ok none
  select_rule (rule ∷ rules) = rule_measures rule >>=? λ m. choose rule m (select_rule rules)

abbrev pub skipped : String → ℕ → SkipReason → Verdict
skipped identity n reason =
    skip (record { identity = identity; try_number = some n; reason = reason })

abbrev pub chosen : String → ℕ → Option Candidate → Verdict
chosen identity n none = skipped identity n no_rule
chosen identity n (some c) = candidate c

abbrev pub is_link : Option Node → Bool
is_link (some (link n leads)) = true
is_link _ = false

abbrev pub is_directory : Option Node → Bool
is_directory (some (directory es)) = true
is_directory _ = false

module _ (site : Site) (policy : RetentionPolicy) (floor_seconds : ℕ) (identity : String) where
  -- A published try that is past the floor.
  unfoldable pub measured_verdict : AttemptState → TryState → Fields → ℕ → Result Verdict
  unfolding select_rule rank
  measured_verdict state t manifest published =
      let n = t.number in
      if is_link (site.workspace identity n) || not (site.within identity n)
      then ok (skipped identity n outside_roots)
      else if not (is_directory (site.workspace identity n))
      then ok (skipped identity n no_rule)
      else (select_rule site identity n t.outcome manifest published (rank n state.tries)
            policy.rules
          >>=? λ c. ok (chosen identity n c))

  abbrev pub published_verdict : AttemptState → TryState → Option Fields → Result Verdict
  published_verdict state t none = ok (skipped identity t.number no_rule)
  published_verdict state t (some manifest) =
      timestamp site (get "published_at" manifest) >>=? λ published.
      if ltb site.clock (published + microseconds floor_seconds)
      then ok (skipped identity t.number floor)
      else measured_verdict state t manifest published

  -- One round of the loop over the tries of a record.
  unfoldable pub verdict : Disk → Option Fields → AttemptState → TryState → Result Verdict
  unfolding measured_verdict
  verdict disk standing state t =
      let n = t.number in
      if not (is_terminal t)
      then ok (skipped identity n non_terminal)
      else if text_is "unreconciled" t.outcome
      then ok (skipped identity n unreconciled)
      else if is_standing n standing
      then ok (skipped identity n reusable)
      else if is_pinned state n
      then ok (skipped identity n pinned)
      else (manifest_of n disk >>=? published_verdict state t)

  unfoldable pub verdicts :
      Disk → Option Fields → AttemptState → List TryState → Result (List Verdict)
  unfolding verdict
  verdicts disk standing state [] = ok []
  verdicts disk standing state (t ∷ ts) =
      verdict disk standing state t >>=? λ v. verdicts disk standing state ts >>=? λ vs. ok (v ∷ vs)

  abbrev pub no_try : Verdict
  no_try = skip (record { identity = identity; try_number = none; reason = non_terminal })

  abbrev pub record_of_tries : Disk → AttemptState → List TryState → Result (List Verdict)
  record_of_tries disk state [] = ok (no_try ∷ [])
  record_of_tries disk state (t ∷ ts) =
      standing_of disk >>=? λ standing. verdicts disk standing state (t ∷ ts)

  -- One round of the loop over the records.
  unfoldable pub survey_record : Disk → Result (List Verdict)
  unfolding verdicts
  survey_record disk = fold_disk disk >>=? λ state. record_of_tries disk state state.tries

module _ (site : Site) (policy : RetentionPolicy) (floor_seconds : ℕ) where
  unfoldable pub survey_records : List (String × Disk) → Result (List Verdict)
  unfolding survey_record
  survey_records [] = ok []
  survey_records (r ∷ rs) = survey_record site policy floor_seconds r.0 r.1 >>=? λ vs.
      survey_records rs >>=? λ ws. ok (vs ++ ws)

abbrev pub candidates_of : List Verdict → List Candidate
candidates_of [] = []
candidates_of (candidate c ∷ vs) = c ∷ candidates_of vs
candidates_of (skip s ∷ vs) = candidates_of vs

abbrev pub skipped_of : List Verdict → List Skip
skipped_of [] = []
skipped_of (candidate c ∷ vs) = skipped_of vs
skipped_of (skip s ∷ vs) = s ∷ skipped_of vs

-- `survey`: the verdicts in order; `candidates_of` and `skipped_of` are its two lists.
unfoldable pub survey : Site → RetentionPolicy → List (String × Disk) → Result (List Verdict)
unfolding survey_records
survey site policy records =
    duration policy.floor >>=? λ seconds. survey_records site policy seconds records
