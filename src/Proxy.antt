-- ===== src/Proxy.antt =====
-- crates/idb-sf-proxy/src/main.rs: what a request to the proxy is forwarded as, and answered with.
-- Http: requests, headers and the libraries. Url: the paths. Forward: the three ways to forward.
-- Handle: the dispatch.
pub mod Http
pub mod Url
pub mod Forward
pub mod Handle
pub mod Address
pub mod Clean
