-- ===== src/Run.antt =====
-- Execution of ready invocations: the dispatch references of run/src/hedloom_run/execution.py, and the
-- bundles of run/src/hedloom_run/binding.py that are executed.
pub mod Execution
pub mod Binding
pub mod Placement
pub mod Worker
pub mod Controller
