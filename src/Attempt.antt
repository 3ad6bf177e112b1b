-- ===== src/Attempt.antt =====
-- The record/try protocol: exec/src/hedloom_exec/attempt.py.
pub mod Env
pub mod Launch
pub mod Reconcile
pub mod Additions
