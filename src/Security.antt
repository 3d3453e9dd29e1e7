-- ===== src/Security.antt =====
-- security: who may do what on the mesh, and how its messages are signed.
pub mod Rbac
pub mod Auth
