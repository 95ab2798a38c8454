-- ===== src/Breaker.antt =====
-- swarm/breaker.py: the shared circuit breaker with four states.
pub mod Transition
pub mod Table
pub mod Probes
pub mod Observe
pub mod Views
pub mod Moves
pub mod Rows
pub mod Slot
pub mod Elsewhere
pub mod Suspension
pub mod Tokens
