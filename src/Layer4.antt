-- ===== src/Layer4.antt =====
-- layer4: the store of entity states and the snapshots of it.
pub mod StateStore
pub mod StateHistory
pub mod ChangeDetector
pub mod Reconciliation
