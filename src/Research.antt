-- ===== src/Research.antt =====
-- swarm/research/policy.py: which results count as contributions, and which branches stay open.
pub mod Policy
pub mod Accepting
pub mod Corrections
pub mod Opportunities
pub mod Expected
pub mod Aligned
pub mod Placed
pub mod Routed
pub mod Suggested
