-- ===== src/Docker.antt =====
-- The package executor/docker: containers for runtimes and jobs, and the store over Docker's images.
pub mod Layout
pub mod Container
pub mod Job
pub mod Auth
pub mod Client
pub mod Store
pub mod Launch
