-- ===== src/Prune.antt =====
-- Retention: exec/src/hedloom_exec/prune.py. What a policy may select, the survey of the tries of the
-- records, and the removal of what was selected.
pub mod Units
pub mod Policy
pub mod Workspace
pub mod Survey
pub mod Apply
pub mod Conditions
pub mod Protected
pub mod Promises
pub mod Freed
pub mod Report
pub mod Proposed
pub mod Rechecked
mod Examples
mod Removals
