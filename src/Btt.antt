-- ===== src/Btt.antt =====
-- The analyser btt, on the traces that blkparse has merged.
pub mod PLive
pub mod Inlines
pub mod Seek
pub mod IoTree
