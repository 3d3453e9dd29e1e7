-- ===== src/Layer3.antt =====
-- layer3: the stream of events.
pub mod EventStream
