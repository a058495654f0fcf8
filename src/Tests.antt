-- ===== src/Tests.antt =====
-- Small inputs of every part, what the code does on them, and the theorems applied to them.
mod Planning
mod Executing
mod Finishing
mod Preparing
mod Paths
mod Resolving
mod Storing
mod Ruling
mod Visiting
mod Options
mod Naming
mod Refreshing
mod Logging
mod Commands
mod Configuring
mod Responses
mod Targeting
mod Depending
