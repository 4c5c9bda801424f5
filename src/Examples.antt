-- ===== src/Examples.antt =====
-- Test data, and instances of the theorems at concrete inputs.
pub mod Base
pub mod Storage
pub mod Blocks
pub mod Chain
pub mod Gaps
pub mod Resolution
pub mod Requests
pub mod Prune
pub mod Connections
