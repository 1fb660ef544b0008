-- ===== src/Simulator.antt =====
-- services/source_simulator: the event source.
pub mod Malformed
pub mod DelayQueue
pub mod Dataset
pub mod Runner
