-- ===== src/Budget.antt =====
-- swarm/budget.py: the admission of paid requests against one swarm's budget.
pub mod Types
pub mod Snapshot
pub mod Reserve
pub mod Settle
pub mod Pending
pub mod Book
pub mod Holds
pub mod Admission
pub mod Runs
