-- ===== src/Prune/Freed.antt =====
-- What a removal of prune.py frees is what its survey measured.
use hedloom.Base.{
  ℕ, ◌+◌, ◌≡◌, refl, ap, ◌∙◌, subst, Bool, true, false, not, ◌&&◌, Option, none, some, arith,
}
use hedloom.Result.{ok}
use hedloom.Prune.Workspace.{
  Node, file, link, directory, Entries, no_entries, entry, bytes_below, bytes_in, bytes_at_root,
  is_log_name, logs_of, workspace_bytes, remove_workspace,
}

-- No link of the root is called like a log.
abbrev pub plain_logs : Entries → Bool
plain_logs no_entries = true
plain_logs (entry name (link n leads) es) = not (is_log_name name) && plain_logs es
plain_logs (entry name node es) = plain_logs es

-- What is on disk, a removed workspace counting nothing.
abbrev pub bytes_on_disk : Option Node → ℕ
bytes_on_disk none = 0
bytes_on_disk (some node) = bytes_below node

kept_and_freed :
    (es : Entries)
    → plain_logs es ≡ true
    → bytes_at_root true es + bytes_in (logs_of es) ≡ bytes_in es
kept_and_freed no_entries h = refl
kept_and_freed (entry name (file n) es) h = ground (arith, kept_and_freed es h)
kept_and_freed (entry name (link n leads) es) h = ground (arith, kept_and_freed es)
kept_and_freed (entry name (directory ds) es) h = ground (arith, kept_and_freed es h)

all_freed : (es : Entries) → bytes_at_root false es ≡ bytes_in es
all_freed no_entries = refl
all_freed (entry name node es) = ground (arith, all_freed es)

-- Removing a workspace that is a directory, with or without its logs, leaves on disk what was there
-- less what the survey measured, where no link at its root is called like a log.
pub removal_frees_what_was_measured :
    (keep_logs : Bool) (es : Entries) (left : Option Node)
    → plain_logs es ≡ true
    → remove_workspace keep_logs (some (directory es)) ≡ ok left
    → workspace_bytes keep_logs (some (directory es)) + bytes_on_disk left ≡ bytes_in es
unfolding workspace_bytes remove_workspace
removal_frees_what_was_measured true es left plain h =
    ap (λ o. bytes_at_root true es + bytes_on_disk o) (same h) ∙ kept_and_freed es plain
  where
    same : ok (some (directory (logs_of es))) ≡ ok left → left ≡ some (directory (logs_of es))
    same h = cc
removal_frees_what_was_measured false es left plain h =
    ap (λ o. bytes_at_root false es + bytes_on_disk o) (same h) ∙ ground (arith, all_freed es)
  where
    same : ok none ≡ ok left → left ≡ none
    same h = cc

logs_of_twice : (es : Entries) → bytes_at_root true (logs_of es) ≡ 0
logs_of_twice no_entries = refl
logs_of_twice (entry name (file n) es) = ground (arith, logs_of_twice es)
logs_of_twice (entry name (link n leads) es) = ground (arith, logs_of_twice es)
logs_of_twice (entry name (directory ds) es) = ground (arith, logs_of_twice es)

-- Nothing is left to measure after a removal, whatever links there were, whether or not logs are kept.
pub nothing_left_to_measure :
    (keep_logs : Bool) (node left : Option Node)
    → remove_workspace keep_logs node ≡ ok left
    → workspace_bytes keep_logs left ≡ 0
unfolding workspace_bytes remove_workspace
nothing_left_to_measure keep_logs none left h = grind arith
nothing_left_to_measure true (some (directory es)) left h =
    subst (λ o. workspace_bytes true o ≡ 0) (same h) (logs_of_twice es)
  where
    same : ok (some (directory (logs_of es))) ≡ ok left → some (directory (logs_of es)) ≡ left
    same h = cc
nothing_left_to_measure false (some (directory es)) left h =
    subst (λ o. workspace_bytes false o ≡ 0) (same h) refl
  where
    same : ok none ≡ ok left → none ≡ left
    same h = cc
nothing_left_to_measure true (some (file n)) left h = cc
nothing_left_to_measure false (some (file n)) left h = cc
nothing_left_to_measure true (some (link n leads)) left h = cc
nothing_left_to_measure false (some (link n leads)) left h = cc
