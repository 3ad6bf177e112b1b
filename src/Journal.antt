-- ===== src/Journal.antt =====
-- The append-only attempt journal: exec/src/hedloom_exec/journal.py.
pub mod Types
pub mod Fold
pub mod World
pub mod Store
pub mod Disk
pub mod Hoare
pub mod Claimed
pub mod Ledger
pub mod Sound
pub mod Extends
