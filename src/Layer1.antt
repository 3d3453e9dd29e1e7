-- ===== src/Layer1.antt =====
-- layer1: the parts of the communication layer that guard calls to adapters.
pub mod CircuitBreaker
pub mod Idempotency
pub mod Adapter
pub mod Registry
pub mod Mesh
