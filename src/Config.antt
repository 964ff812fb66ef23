-- ===== src/Config.antt =====
-- crates/idb-config/src: catalog configuration. The YAML parser is a library; its values enter as
-- the cases that `value_to_string` tells apart.
pub mod Resolve
pub mod Profile
pub mod Load
