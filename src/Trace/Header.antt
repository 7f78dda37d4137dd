-- ===== src/Trace/Header.antt =====
-- blktrace.h: the macros on times, devices and sizes, the check of a trace's magic number and
-- version, and the conversion of a trace written on a machine of the other byte order.
use blktrace.Common.{
  ℕ, ◌+◌, ◌-◌, ◌*◌, ◌/◌, ◌%◌, ◌^◌, Bool, true, false, ◌&&◌, Option, none, some, if◌then◌else◌, ◌==◌,
}
use blktrace.Trace.Record.{BlkIoTrace, magic_base, supported_version}

-- SECONDS(x)
unfoldable pub seconds : ℕ → ℕ
seconds x = x / 1000000000

-- NANO_SECONDS(x)
unfoldable pub nano_seconds : ℕ → ℕ
nano_seconds x = x % 1000000000

-- MAJOR(dev) and MINOR(dev), with MINORBITS 20
unfoldable pub major : ℕ → ℕ
major dev = dev / 2 ^ 20

unfoldable pub minor : ℕ → ℕ
minor dev = dev % 2 ^ 20

-- t_sec(t), t_kb(t) and t_b(t)
unfoldable pub t_sec : BlkIoTrace → ℕ
t_sec t = t.bytes / 2 ^ 9

unfoldable pub t_kb : BlkIoTrace → ℕ
t_kb t = t.bytes / 2 ^ 10

unfoldable pub t_b : BlkIoTrace → ℕ
t_b t = t.bytes % 2 ^ 10

-- CHECK_MAGIC(t): the mask 0xffffff00 clears the low byte.
unfoldable pub check_magic : ℕ → Bool
check_magic magic = magic - magic % 256 == magic_base

-- `true` is the return value 0: the trace is good.
unfoldable pub verify_trace : BlkIoTrace → Bool
unfolding check_magic
verify_trace t = check_magic t.magic && (t.magic % 256 == supported_version)

-- __bswap_16, __bswap_32 and __bswap_64 of byteswap.h
unfoldable pub bswap_16 : ℕ → ℕ
bswap_16 x = x % 2 ^ 8 * 2 ^ 8 + x / 2 ^ 8

unfoldable pub bswap_32 : ℕ → ℕ
bswap_32 x =
    x % 2 ^ 8 * 2 ^ 24 + x / 2 ^ 8 % 2 ^ 8 * 2 ^ 16 + x / 2 ^ 16 % 2 ^ 8 * 2 ^ 8 + x / 2 ^ 24

unfoldable pub bswap_64 : ℕ → ℕ
unfolding bswap_32
bswap_64 x = bswap_32 (x % 2 ^ 32) * 2 ^ 32 + bswap_32 (x / 2 ^ 32)

-- data_is_native, once known. `none` is its initial -1.
abbrev pub Native : Type 0
Native = Option Bool

-- The conversion of trace_to_cpu where the data is not native. The payload is left alone.
unfoldable pub swap_trace : BlkIoTrace → BlkIoTrace
swap_trace t = record t {
  magic = bswap_32 t.magic;
  sequence = bswap_32 t.sequence;
  time = bswap_64 t.time;
  sector = bswap_64 t.sector;
  bytes = bswap_32 t.bytes;
  action = bswap_32 t.action;
  pid = bswap_32 t.pid;
  device = bswap_32 t.device;
  cpu = bswap_32 t.cpu;
  error = bswap_16 t.error;
  pdu_len = bswap_16 t.pdu_len;
}

-- trace_to_cpu: `if (data_is_native) return` takes the unknown -1 for native.
unfoldable pub trace_to_cpu : Native → BlkIoTrace → BlkIoTrace
unfolding swap_trace
trace_to_cpu (some false) t = swap_trace t
trace_to_cpu (some true) t = t
trace_to_cpu none t = t

-- check_data_endianness: `none` is the return value 1, and leaves data_is_native as it is.
unfoldable pub check_data_endianness : ℕ → Option Bool
unfolding check_magic bswap_32
check_data_endianness magic =
    if check_magic magic
    then some true
    else if check_magic (bswap_32 magic)
    then some false
    else none
