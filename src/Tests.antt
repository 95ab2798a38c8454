-- ===== src/Tests.antt =====
-- Small inputs, and every theorem applied at them.
mod Samples
mod OfLedger
mod OfGuards
mod OfTopology
mod OfRecords
mod OfCache
mod OfReadiness
mod OfResearch
