-- ===== src/Faults.antt =====
-- swarm/fault_observations.py: immutable failure facts, and the windows over them that the breaker
-- reads.
pub mod Records
pub mod Windows
pub mod Appending
