-- ===== src/Session.antt =====
-- crates/idb-sql/src/lib.rs: a SQL session over a catalog. DataFusion, the Arrow arrays, the clock
-- and the Iceberg catalog are parameters; their calls act on the counters of the query and on a
-- state of their own. An error is its text.
pub mod Options
pub mod Batches
pub mod Lazy
pub mod Query
pub mod Tables
pub mod Open
