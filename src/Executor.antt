-- ===== src/Executor.antt =====
-- The packages executor and executor/system: what a spawned runtime gets, and the status of an
-- agent.
pub mod Env
pub mod Runtime
pub mod Process
pub mod Status
