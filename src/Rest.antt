-- ===== src/Rest.antt =====
-- The REST catalog of crates/idb-catalog: the exchange of a token (snowflake_auth.rs), tables with
-- vended credentials (rest_vended.rs) and the opening of a catalog (open_rest of lib.rs). HTTP, the
-- JSON of replies and the iceberg crate are parameters.
pub mod Http
pub mod Auth
pub mod Vended
pub mod Listing
pub mod Open
