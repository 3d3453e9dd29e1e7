-- ===== src/Tests.antt =====
-- Concrete runs of the components, with the data that the runs share.
mod Layer1
mod Mesh
mod Security
mod Policy
mod Layer2
mod Layer3
mod Layer4
mod Reconciliation
mod Layer5
mod Layer6
