-- ===== src/Manager.antt =====
-- src/sw/manager: the database of packages.
pub mod Database
