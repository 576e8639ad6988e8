-- ===== src/Tests.antt =====
-- Runs of the model at small inputs, and the theorems at inputs that meet their hypotheses.
mod Agents
mod Samples
mod References
mod Rules
mod Resolution
mod Environment
mod Parsing
mod Stores
mod Lifecycle
mod Containers
mod Images
mod Encodings
mod Builds
mod Launches
mod Registries
mod Remotes
mod Workspaces
