-- ===== src/Layer5.antt =====
-- layer5: the containers and the networks that the simulated runtime keeps.
pub mod ContainerRuntime
pub mod NetworkManager
