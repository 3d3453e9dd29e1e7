-- ===== src/Layer2.antt =====
-- layer2: the catalog of entities and the relationships between them.
pub mod Index
pub mod Entity
pub mod Catalog
pub mod Graph
pub mod Impact
pub mod Registration
