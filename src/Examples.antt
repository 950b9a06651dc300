-- ===== src/Examples.antt =====
-- The theorems at concrete inputs, and tests of the definitions.
pub mod Stats
pub mod Session
pub mod Control
pub mod Compaction
pub mod Tools
pub mod Operations
pub mod Pairing
pub mod Inference
pub mod Run
pub mod Summaries
pub mod Repository
pub mod Wire
pub mod Gateway
pub mod Streams
pub mod Service
