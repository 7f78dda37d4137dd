-- ===== src/Trace.antt =====
-- The trace record of blktrace_api.h and its constants. The payload that follows the record in
-- memory and in a file, `pdu_len` bytes, is the field `pdu`.
pub mod Tc
pub mod Ta
pub mod Header
pub mod Record
pub mod Laws
