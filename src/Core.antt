-- ===== src/Core.antt =====
-- src/sw/core: the targets of a build and the database of its inputs.
pub mod Targets
pub mod Inputs
