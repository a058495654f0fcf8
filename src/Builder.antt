-- ===== src/Builder.antt =====
-- src/sw/builder: command nodes, the execution plan, files, commands and the command storage.
pub mod Node
pub mod Prepare
pub mod Plan
pub mod Exec
pub mod File
pub mod Files
pub mod Storage
pub mod Command
pub mod Deps
