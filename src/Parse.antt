-- ===== src/Parse.antt =====
-- blkparse.c, the program that merges the traces of a device's CPUs and reports on them: the
-- statistics (IoStats, Account), the reading and merging of the trace streams (Streams, Skips,
-- Sorting), the tables of processes and of single requests (Processes, Tracks), and the dispatch
-- on the action of a trace (Handle, Dump, Notify).
pub mod IoStats
pub mod Account
pub mod Skips
pub mod Streams
pub mod RbTree
pub mod Rwbs
pub mod Sorting
pub mod Processes
pub mod Tracks
pub mod Notify
pub mod Dump
pub mod Handle
