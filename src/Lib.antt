-- ===== src/Lib.antt =====
-- A model of iceberg-db-rs: SQL over Apache Iceberg tables from the command line, from a browser
-- (WebAssembly) and from benchmarks. A query is planned by DataFusion over a catalog; its scans
-- read data files through storages that cache bytes, and the catalog's configuration says where
-- the tables are.
--
-- The files and the code they model:
--   * Base: numbers of 64 and of 32 bits that wrap, results with an error or a panic, calls on a state,
--     text as code points with the `str` methods the code calls, and maps with text keys.
--   * ByteCache: crates/idb-catalog/src/byte_cache/mod.rs. Range (ByteCacheKey,
--     slice_cached_range, with the `usize` of the platform: 32 bits in the browser), Chunks (PathByteCache), Interface (ByteCacheStore as operations and
--     laws, NoopByteCache), Memory (MemoryByteCache). The iteration order of the map of paths is
--     a parameter, a choice of a stored key. The loop of the eviction runs on fuel, the number of
--     paths, which is enough since every round removes one. Settings: the settings, the
--     fingerprint of a catalog's connection (the hasher is a parameter), the process's cache, and
--     the browser's reads through it. Disk: FsByteCache; the names of files and the success of
--     writes are parameters.
--   * QueryIo: crates/idb-catalog/src/wasm_query_io.rs, the counters and the cancellation of a
--     query, in the native build and in the browser's.
--   * CachingStorage: crates/idb-catalog/src/caching_storage.rs and read_range_cached. The wrapped
--     Storage is a parameter: what its calls yield (in the
--     browser it keeps chunks in the same cache, which is with BrowserS3). Files has its other methods, over the state of
--     the files behind it.
--   * ResolvedPaths: crates/idb-catalog/src/resolved_paths.rs, paths of data files against the
--     location of a table, and the catalog whose tables read their files so (Catalog).
--   * Config: crates/idb-config/src/lib.rs (Resolve: placeholders; Load: the configuration of a
--     text, over a parameter for the YAML library) and profile.rs (Profile: the presets and the
--     validation of REST catalogs). The environment is a parameter.
--   * FileGroups: patches/iceberg-datafusion-0.9.1/src/physical_plan/file_groups.rs, the spread
--     of scan tasks over partitions; sums wrap at 64 bits.
--   * CaseInsensitive: crates/idb-sql/src/case_insensitive.rs, lookup of schemas and tables in any
--     case, and the renamed columns of a scan. The wrapped catalog and the plans are parameters.
--   * ShowTables: parse_show_tables of crates/idb-sql/src/lib.rs.
--   * Session: the rest of crates/idb-sql/src. Query (lib.rs: a session, its statements and the
--     texts of its errors), Batches (the grid and the text of explained plans), Options
--     (session_options.rs), Lazy (wasm_lazy_catalog.rs, the browser's catalog) and Open (the
--     sessions over a registry, and the demo of wasm_demo.rs). DataFusion, Arrow, the clock and the
--     Iceberg catalog are parameters, whose calls act on the counters and on a state of their own.
--   * Engine: crates/idb-core/src/lib.rs, a registry and a session; Steps has its calls as a
--     sequence of steps.
--   * BrowserEngine: crates/idb-wasm/src/lib.rs, the session of a page, with its calls as steps in
--     Once. A panic is an error that ends the page.
--   * Proxy: crates/idb-sf-proxy/src/main.rs, what a request is forwarded as.
--   * BrowserS3: crates/idb-catalog/src/wasm_s3_storage.rs, settings, locations of objects, reads
--     through the cache, and the request that is sent (Signed), through Proxy in ThroughProxy; Steps
--     has a session as a sequence of steps. The crate url, the signer of AWS, percent-encoding and,
--     for the reads, what S3 yields are parameters.
--   * Hadoop: crates/idb-catalog/src/hadoop.rs, the search for the tables of a warehouse. The file
--     system and the catalog that is filled are parameters; Scan names what they promise.
--   * Rest: Auth (crates/idb-catalog/src/snowflake_auth.rs, the exchange of a token), Vended
--     (rest_vended.rs, the loading of a table), Listing (its listings in the browser) and Open
--     (open_rest of lib.rs). HTTP, JSON, upper case by Unicode's tables and the iceberg crate are
--     parameters; a call acts on the state of the network. A panic while a secret is redacted for
--     the log is an error of the call. The loop over the pages of a listing runs on fuel, and ends
--     with any fuel from the number of pages on.
--   * Registry: CatalogRegistry of crates/idb-catalog/src/lib.rs, the opening of all catalogs.
--   * HttpLog: crates/idb-catalog/src/http_log.rs, the redaction of secrets.
--   * Bench: crates/idb-bench/src/engine.rs, runner.rs, report.rs and history.rs (History). The
--     engine and JSON are parameters; a quotient of floats is kept as its two numbers.
--   * Tests: runs of the definitions.
--
-- A cached read goes from CachingStorage to a cache behind ByteCache.Interface, whose laws
-- MemoryByteCache keeps, and on a miss to the wrapped storage. The paths it is given were resolved
-- by ResolvedPaths, and its scan tasks were spread by FileGroups. The registry opens a catalog by
-- its configuration: one of files through Hadoop, one of REST through the profile and the
-- validation of Config, the cache of ByteCache.Settings and the token of Rest.Auth, which then goes
-- with every request of Rest.Vended. An engine or a page opens a registry by a configuration that
-- Config.Load read, and a session over it; the session answers SHOW TABLES by ShowTables and the
-- catalog, and gives other statements to DataFusion, which finds tables through CaseInsensitive.
--
-- Not modelled: the methods of the REST catalog that forward to the wrapped one; the command line,
-- the promises of the browser's interface, the tables of the memory demo, the engines and the plans
-- of the benchmarks, logging and HTTP clients, which are input and output around the parts above;
-- the copies of Apache Iceberg crates under patches, but for the file groups; the files of other
-- languages.
pub mod Base
pub mod ByteCache
pub mod QueryIo
pub mod CachingStorage
mod Tests
pub mod ResolvedPaths
pub mod Config
pub mod FileGroups
pub mod CaseInsensitive
pub mod Session
pub mod Engine
pub mod BrowserEngine
pub mod ShowTables
pub mod Proxy
pub mod BrowserS3
pub mod Hadoop
pub mod Rest
pub mod Registry
pub mod Bench
pub mod HttpLog
