-- ===== src/Layer1/Mesh.antt =====
-- The mesh of layer1: the wire protocol (mesh_protocol.go), a node that serves it (mesh_node.go),
-- the transfer of a file (mesh_adapter.go) and the choice of a coordinator (mesh_coordinator.go).
pub mod Protocol
pub mod Payloads
pub mod Node
pub mod Transfer
pub mod Coordinator
