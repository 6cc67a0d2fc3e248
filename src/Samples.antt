-- ===== src/Samples.antt =====
-- Runs of the models at concrete inputs, and the theorems applied there.
mod Tasks
mod Gate
mod Chunker
mod Degradation
mod Service
mod Batch
mod Numbers
mod Search
mod Runner
mod Sources
mod Retrieval
mod Downloads
