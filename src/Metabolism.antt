-- ===== src/Metabolism.antt =====
-- metabolism/: the shared cache of genes, their weights, injections and adoptions.
pub mod Types
pub mod Signals
pub mod Cache
pub mod Injecting
pub mod Runs
pub mod Effects
pub mod Steps
pub mod Archived
pub mod Uses
pub mod Once
