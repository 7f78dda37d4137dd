-- ===== src/Trace/Record.antt =====
-- struct blk_io_trace of blktrace_api.h.
use blktrace.Common.{ℕ, ◌^◌, ◌<◌, List}

-- BLK_IO_TRACE_MAGIC
abbrev pub magic_base : ℕ
magic_base = 0x65617400

-- SUPPORTED_VERSION
abbrev pub supported_version : ℕ
supported_version = 7

pub record BlkIoTrace : Type 0 where
  pub magic : ℕ
  pub sequence : ℕ
  pub time : ℕ
  pub sector : ℕ
  pub bytes : ℕ
  pub action : ℕ
  pub pid : ℕ
  pub device : ℕ
  pub cpu : ℕ
  pub error : ℕ
  pub pdu_len : ℕ
  pub pdu : List ℕ

-- Every field holds a value of its C type.
pub record InRange (t : BlkIoTrace) : Type 0 where
  pub magic_lt : t.magic < 2 ^ 32
  pub sequence_lt : t.sequence < 2 ^ 32
  pub time_lt : t.time < 2 ^ 64
  pub sector_lt : t.sector < 2 ^ 64
  pub bytes_lt : t.bytes < 2 ^ 32
  pub action_lt : t.action < 2 ^ 32
  pub pid_lt : t.pid < 2 ^ 32
  pub device_lt : t.device < 2 ^ 32
  pub cpu_lt : t.cpu < 2 ^ 32
  pub error_lt : t.error < 2 ^ 16
  pub pdu_len_lt : t.pdu_len < 2 ^ 16
