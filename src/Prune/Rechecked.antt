-- ===== src/Prune/Rechecked.antt =====
-- A removal of `Survey.apply` in prune.py is checked again under the claim of its record.
use hedloom.Base.{str_eq, ℕ, ◌≡◌, String, Option, List, [], ◌∷◌, find, ◌⊎◌}
use hedloom.Result.{or_raise, no_such_try, Result, ok, err}
use hedloom.Journal.World.{Disk, World}
use hedloom.Journal.Claimed.{IsSeen, Found}
use hedloom.Prune.Policy.{RetentionRule, RetentionPolicy}
use hedloom.Prune.Workspace.{Node, remove_workspace}
use hedloom.Prune.Survey.{Site, Candidate, Verdict, survey}
use hedloom.Prune.Proposed.{Proposed}
use hedloom.Prune.Apply.{Removal, kept, removed, without_workspace}

module _ {S : Type 0} (C : S → Type 0) where
  abbrev Outside : World S → Type 0
  Outside w = C w.outside

module _ (policy : RetentionPolicy) (path : String → ℕ → String) (actor : Option String)
    (proposed : Candidate) (before : World Site) where
  -- The rule of the policy with the name that the candidate gives.
  abbrev Applies : Candidate → RetentionRule → Type 0
  Applies c rule =
      or_raise (find (λ (r : RetentionRule). str_eq r.name c.rule) policy.rules) no_such_try
      ≡ ok rule

  -- The workspace of a try that is spent now was removed, and nothing else.
  pub record Removed (after : Site) : Type 0 where
    pub disk : Disk
    pub seen : IsSeen before.disk disk
    pub current : Candidate
    pub same_record : current.identity ≡ proposed.identity
    pub same_try : current.try_number ≡ proposed.try_number
    pub spent : Proposed policy before.outside proposed.identity disk current
    pub rule : RetentionRule
    pub applied : Applies current rule
    pub left : Option Node
    pub cleared :
        remove_workspace rule.keep_logs
          (before.outside.workspace current.identity current.try_number)
        ≡ ok left
    pub nothing_else :
        after ≡ without_workspace current.identity current.try_number left before.outside

  abbrev pub Untouched : Site → Type 0
  Untouched after = after ≡ before.outside

  abbrev pub Rechecked : Site → Type 0
  Rechecked after = Untouched after ⊎ Removed after

  -- What a round reports: a removal, or that nothing was removed.
  abbrev pub Reported : Removal → Site → Type 0
  Reported (removed c) after = Removed after
  Reported (kept s) after = Untouched after

  abbrev pub Outcome : Result Removal → Site → Type 0
  Outcome (ok r) after = Reported r after
  Outcome (err e) after = Rechecked after

  abbrev Told : Removal → World Site → Type 0
  Told r w = Reported r w.outside

  abbrev Settled : World Site → Type 0
  Settled w = Rechecked w.outside

  -- The survey under the claim, and the candidate that it still has.
  record Current (c : Candidate) : Type 0 where
    disk : Disk
    seen : IsSeen before.disk disk
    same_record : c.identity ≡ proposed.identity
    same_try : c.try_number ≡ proposed.try_number
    spent : Proposed policy before.outside proposed.identity disk c

  -- What the survey under the claim says.
  abbrev Surveyed : Result (List Verdict) → World Site → Type 0
  Surveyed r w =
      Found before w × (survey before.outside policy ((proposed.identity, w.disk) ∷ []) ≡ r)
