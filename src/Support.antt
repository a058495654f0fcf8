-- ===== src/Support.antt =====
-- src/sw/support: names, versions and settings of packages, maps of them, and resolving.
pub mod Path
pub mod Version
pub mod Resolver
pub mod Name
pub mod Settings
pub mod PackageMap
