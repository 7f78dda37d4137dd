-- ===== src/Tests.antt =====
-- The theorems at concrete inputs: traces, tables and trees as blkparse meets them.
mod Data
mod Streams
mod Tracking
mod Tables
mod Formats
mod Summaries
mod Replay
mod Analysis
mod Monitor
mod Watcher
