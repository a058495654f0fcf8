-- ===== src/Driver.antt =====
-- src/sw/driver: the rules of targets and their files, and the options and dependencies of targets.
pub mod Rules
pub mod System
pub mod Options
pub mod UniqueVector
pub mod Dependencies
pub mod Linking
