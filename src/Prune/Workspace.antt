-- ===== src/Prune/Workspace.antt =====
-- A workspace on disk, `_workspace_bytes` and `_remove_workspace`.
use hedloom.Result.{Result, ok, err, os_error}
use hedloom.Base.{
  ℕ, ◌+◌, String, Bool, true, false, ◌&&◌, ◌||◌, Option, none, some, str_eq, if◌then◌else◌,
}

-- A file, a symbolic link (with whether it leads to a directory), or a directory; the numbers are sizes
-- in bytes.
mutual
  pub data Node : Type 0 where
    file : ℕ → Node
    link : ℕ → Bool → Node
    directory : Entries → Node

  pub data Entries : Type 0 where
    no_entries : Entries
    entry : String → Node → Entries → Entries

-- `_LOG_NAMES`
abbrev pub is_log_name : String → Bool
is_log_name name = str_eq name "stdout.log" || str_eq name "stderr.log"

-- What the walk sums below the workspace's root: a link counts by itself.
abbrev mutual
  pub bytes_below : Node → ℕ
  bytes_below (file n) = n
  bytes_below (link n leads) = n
  bytes_below (directory es) = bytes_in es

  pub bytes_in : Entries → ℕ
  bytes_in no_entries = 0
  bytes_in (entry name node es) = bytes_below node + bytes_in es

-- Among the root's file names, links to directories are no file names.
abbrev pub is_file_name : Node → Bool
is_file_name (file n) = true
is_file_name (link n leads) = if leads then false else true
is_file_name (directory es) = false

abbrev pub bytes_at_root : Bool → Entries → ℕ
bytes_at_root keep_logs no_entries = 0
bytes_at_root keep_logs (entry name node es) =
    if keep_logs && is_log_name name && is_file_name node
    then bytes_at_root keep_logs es
    else bytes_below node + bytes_at_root keep_logs es

-- `_workspace_bytes`; `none` is a workspace that does not exist, and the survey never measures a link
unfoldable pub workspace_bytes : Bool → Option Node → ℕ
workspace_bytes keep_logs (some (directory es)) = bytes_at_root keep_logs es
workspace_bytes keep_logs _ = 0

-- `child.is_file() and not child.is_symlink()`
abbrev pub is_plain_file : Node → Bool
is_plain_file (file n) = true
is_plain_file _ = false

abbrev pub logs_of : Entries → Entries
logs_of no_entries = no_entries
logs_of (entry name node es) =
    if is_log_name name && is_plain_file node then entry name node (logs_of es) else logs_of es

-- `_remove_workspace`: what is left of the workspace; a file for a root is refused, and so is here a link,
-- which a survey never proposes
unfoldable pub remove_workspace : Bool → Option Node → Result (Option Node)
remove_workspace keep_logs none = ok none
remove_workspace true (some (directory es)) = ok (some (directory (logs_of es)))
remove_workspace false (some (directory es)) = ok none
remove_workspace keep_logs (some _) = err os_error
