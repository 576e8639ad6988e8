-- ===== src/System.antt =====
-- executor/system: agents that run as processes of the host, each over a directory of its own.
pub mod Io
pub mod Workspace
pub mod Materialize
pub mod Agent
pub mod Manifests
pub mod Registry
