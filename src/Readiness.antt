-- ===== src/Readiness.antt =====
-- contracts/readiness.py and readiness/service.py: what a deployment's probes say together.
pub mod Verdict
pub mod Healthy
pub mod Service
pub mod Reports
pub mod Cached
pub mod Unbounded
