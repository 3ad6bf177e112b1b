-- ===== src/Flow.antt =====
-- The plans of flow/src/hedloom_flow/model.py: authored values, the graph of a plan, its validation.
pub mod Text
pub mod Values
pub mod Graph
pub mod Contracts
pub mod Check
pub mod Validate
pub mod Accepted
