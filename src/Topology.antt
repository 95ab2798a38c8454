-- ===== src/Topology.antt =====
-- topology/engine.py: which of the configured connections a message is routed along.
pub mod Engine
pub mod Runs
pub mod Counted
pub mod Delivered
pub mod Choice
pub mod Pruning
