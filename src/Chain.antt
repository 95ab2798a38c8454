-- ===== src/Chain.antt =====
-- swarm/failure_chain.py: the guard of a candidate provider, and the decision after a failure.
pub mod Guard
pub mod Held
pub mod Coverage
