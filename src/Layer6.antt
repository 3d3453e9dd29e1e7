-- ===== src/Layer6.antt =====
-- layer6: rules that match events and summaries and propose actions.
pub mod Go
pub mod Rule
pub mod RuleEngine
pub mod Proposals
