-- ===== src/Tasks.antt =====
-- comet_rag/tasks: task records, their status table, the store, the executor and the service.
pub mod Status
pub mod States
pub mod Value
pub mod Error
pub mod Models
pub mod Effect
pub mod Memory
pub mod Cas
pub mod Store
pub mod Sweep
pub mod Runner
pub mod Endings
pub mod Executor
pub mod Service
