-- ===== src/Tests.antt =====
-- Tests and witnesses, by the part of the program.
mod Cache
mod Files
mod Paths
mod Relative
mod Catalogs
mod Scans
mod Schemas
mod Statements
mod Sessions
mod Engines
mod Loading
mod Requests
mod Settings
mod Disk
mod Hadoop
mod Rest
mod Opening
mod Benchmarks
mod Browser
