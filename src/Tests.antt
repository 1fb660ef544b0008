-- ===== src/Tests.antt =====
-- Concrete inputs, runs of the models on them, and the theorems applied to them.
pub mod Samples
pub mod Warehouse
mod Schemas
mod Ingestor
mod Loop
mod Pipeline
mod Runs
mod Gold
mod RunRecord
mod Inference
mod Training
mod Delay
mod SimulatorRun
mod Sorted
mod TrainingRun
