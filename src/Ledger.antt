-- ===== src/Ledger.antt =====
-- swarm/task_ledger.py: durable task facts, leases with fencing tokens, and result publication.
pub mod Types
pub mod Monad
pub mod Store
pub mod Eligible
pub mod Claim
pub mod Leases
pub mod Publish
pub mod Listings
pub mod Manager
pub mod Enqueue
pub mod Ends
pub mod Rows
pub mod Lifecycle
pub mod Steps
pub mod ClaimStep
pub mod PublishStep
pub mod EnqueueStep
pub mod Call
pub mod Runs
pub mod Settled
pub mod Inert
pub mod Lapsed
pub mod Exclusion
pub mod Attempts
pub mod Ordering
pub mod Scopes
