-- ===== src/Spec.antt =====
-- The package spec: the data model of an Agentfile, its parser and its rules.
pub mod Types
pub mod Names
pub mod Validate
pub mod Configs
pub mod Overrides
pub mod Contexts
pub mod Instruction
pub mod Parse
pub mod Reference
