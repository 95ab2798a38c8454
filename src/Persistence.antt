-- ===== src/Persistence.antt =====
-- persistence/store.py: events, results, genes and provisions in one SQLite file.
pub mod Store
pub mod Runs
pub mod Kept
pub mod Evidence
