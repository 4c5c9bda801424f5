-- ===== src/Headers.antt =====
-- indexer-lib/src/database/headers: compact headers, the index by DAA score, and block gaps
pub mod Compact
pub mod DaaIndex
pub mod Gaps
pub mod GapScan
pub mod Lookup
