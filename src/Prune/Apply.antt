-- ===== src/Prune/Apply.antt =====
-- `Survey.apply`: each proposal is checked again under its record's claim, and then removed. The
-- records are kept by identity; each round works on one of them through its own journal.
use hedloom.Base.{
  ℕ, ◌+◌, String, Bool, ◌&&◌, Option, none, some, List, [], ◌∷◌, ◌++◌, any, find, leb, ◌==◌, str_eq,
  if◌then◌else◌,
}
use hedloom.Json.{Json, Fields, field, end, get}
use hedloom.Result.{Result, ok, err, or_raise, no_such_try, concurrent_claim}
use hedloom.Journal.Types.{EventName, JournalEvent}
use hedloom.Journal.World.{Disk, World, Exec, pure, lift, gets, modify, ◌>>=◌, ◌>>◌}
use hedloom.Journal.Disk.{events_of}
use hedloom.Journal.Store.{append, claim}
use hedloom.Prune.Policy.{RetentionRule, RetentionPolicy}
use hedloom.Prune.Workspace.{Node, remove_workspace}
use hedloom.Prune.Survey.{
  Site, Candidate, Skip, SkipReason, no_rule, contended, Verdict, survey, candidates_of, skipped_of,
  equals_number,
}

-- What a round makes of a proposal.
pub data Removal : Type 0 where
  removed : Candidate → Removal
  kept : Skip → Removal

abbrev pub names_try : String → ℕ → Candidate → Bool
names_try identity n c = str_eq c.identity identity && (c.try_number == n)

abbrev skips_try : String → ℕ → Skip → Bool
skips_try identity n s = elim s.try_number [
  | none ↦ Bool.false
  | some m ↦ str_eq s.identity identity && (m == n)
]

abbrev skip_of : String → ℕ → SkipReason → Skip
skip_of identity n reason = record { identity = identity; try_number = some n; reason = reason }

abbrev or_no_rule : String → ℕ → Option Skip → Skip
or_no_rule identity n none = skip_of identity n no_rule
or_no_rule identity n (some s) = s

abbrev pub is_removal_of : ℕ → JournalEvent → Bool
is_removal_of n e = elim e.event [
  | EventName.workspace_removed ↦ equals_number n (get "try" e.args)
  | _ ↦ Bool.false
]

-- `site.workspace` after the removal of one workspace.
abbrev pub without_workspace : String → ℕ → Option Node → Site → Site
without_workspace identity n left site = record site {
  workspace = λ i m. if str_eq i identity && (m == n) then left else site.workspace i m;
}

abbrev with_actor : Option String → Fields → Fields
with_actor none args = args
with_actor (some a) args = field "actor" (Json.str a) args

-- The records, whose locks some other process may hold, and the site.
pub record Records : Type 0 where
  pub disk : String → Disk
  pub lock_free : String → Bool
  pub now : String
  pub site : Site

-- The journal that a round opens.
abbrev pub opened : String → Records → World Site
opened identity rs = record {
  disk = rs.disk identity;
  lock_free = rs.lock_free identity;
  claim_held = Bool.false;
  next_seq = none;
  clock = λ n. rs.now;
  ticks = 0;
  fuse = none;
  outside = rs.site;
  submissions = [];
  selection = none;
  publication_errors = [];
}

abbrev pub closed : String → World Site → Records → Records
closed identity w rs = record rs {
  disk = λ i. if str_eq i identity then w.disk else rs.disk i;
  site = w.outside;
}

pub record PruneReport : Type 0 where
  pub removed_candidates : List Candidate
  pub skips : List Skip
  pub freed_bytes : ℕ
  pub stopped_at_limit : Bool

abbrev pub note : Removal → PruneReport → PruneReport
note (removed c) r = record r {
  removed_candidates = r.removed_candidates ++ c ∷ [];
  freed_bytes = r.freed_bytes + c.bytes;
}
note (kept s) r = record r { skips = r.skips ++ s ∷ [] }

abbrev pub at_limit : Option ℕ → ℕ → Bool
at_limit none freed = Bool.false
at_limit (some limit) freed = leb limit freed

-- `except ConcurrentClaim`
abbrev pub caught : Candidate → Result Removal → Result Removal
caught c (ok r) = ok r
caught c (err concurrent_claim) = ok (kept (skip_of c.identity c.try_number contended))
caught c (err e) = err e

module _ (policy : RetentionPolicy) (path : String → ℕ → String) (actor : Option String) where
  abbrev pub removal_args : Candidate → Fields
  removal_args c = field "try" (Json.nat c.try_number) (
      field "workspace" (Json.str (path c.identity c.try_number))
        (field "bytes" (Json.nat c.bytes) (field "rule" (Json.str c.rule) (with_actor actor end))))

  -- `_remove_workspace`, of the disk's workspaces
  unfoldable pub clear : Bool → Candidate → Exec Site (Unit {0})
  clear keep_logs c = do
    left ← gets (λ w. remove_workspace keep_logs (w.outside.workspace c.identity c.try_number))
    node ← lift left
    modify (λ w. record w { outside = without_workspace c.identity c.try_number node w.outside })

  -- The proposal still holds: the removal is recorded, once, and done.
  abbrev pub remove_current : Candidate → Exec Site Removal
  remove_current c = do
    events ← gets (λ w. events_of w.disk)
    log ← lift events
    (if any (is_removal_of c.try_number) log
        then pure tt
        else append EventName.workspace_removed (removal_args c))
    rule ←
        lift
          (or_raise (find (λ (r : RetentionRule). str_eq r.name c.rule) policy.rules) no_such_try)
    clear rule.keep_logs c
    pure (removed c)

  abbrev pub recheck_found : String → ℕ → List Verdict → Option Candidate → Exec Site Removal
  recheck_found identity n fresh none =
      pure (kept (or_no_rule identity n (find (skips_try identity n) (skipped_of fresh))))
  recheck_found identity n fresh (some c) = remove_current c

  abbrev pub recheck : String → ℕ → List Verdict → Exec Site Removal
  recheck identity n fresh =
      recheck_found identity n fresh (find (names_try identity n) (candidates_of fresh))

  -- One round of the loop, under the claim.
  unfoldable pub apply_one : Candidate → Exec Site Removal
  unfolding clear
  apply_one proposed = claim (do
    fresh ← gets (λ w. survey w.outside policy ((proposed.identity, w.disk) ∷ []))
    verdicts ← lift fresh
    recheck proposed.identity proposed.try_number verdicts)

  -- The loop over the proposals, from what it has reported so far.
  unfoldable pub apply_from :
      Option ℕ → List Candidate → PruneReport → Records → Result PruneReport × Records
  unfolding apply_one
  apply_from limit [] report rs = (ok report, rs)
  apply_from limit (c ∷ cs) report rs =
      if at_limit limit report.freed_bytes
      then (ok (record report { stopped_at_limit = Bool.true }), rs)
      else (let (r, w) = apply_one c (opened c.identity rs) in
          let rs' = closed c.identity w rs in
          elim (caught c r) [
            | ok removal ↦ apply_from limit cs (note removal report) rs'
            | err e ↦ (err e, rs')
          ])
