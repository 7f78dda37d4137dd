-- ===== src/Trace/Laws.antt =====
-- The byte order conversions of blktrace.h, and what a reader makes of a foreign trace.
use blktrace.Common.{ℕ, ◌*◌, ◌^◌, ◌/◌, ◌%◌, ◌<◌, ◌≡◌, Bool, true, false, some, arith}
use blktrace.Trace.Record.{BlkIoTrace, InRange}
use blktrace.Trace.Header.{
  bswap_16, bswap_32, bswap_64, swap_trace, trace_to_cpu, check_data_endianness, check_magic,
  verify_trace,
}

-- A byte of a word, the lowest first
abbrev pub byte : ℕ → ℕ → ℕ
byte i x = x / 2 ^ (8 * i) % 2 ^ 8

-- The bytes of y are those of x in the opposite order, for words of 2, 4 and 8 bytes.
abbrev pub Mirrored2 : ℕ → ℕ → Type 0
Mirrored2 x y = (byte 0 y ≡ byte 1 x) × (byte 1 y ≡ byte 0 x)

abbrev pub Mirrored4 : ℕ → ℕ → Type 0
Mirrored4 x y =
    (byte 0 y ≡ byte 3 x) × (byte 1 y ≡ byte 2 x) × (byte 2 y ≡ byte 1 x) × (byte 3 y ≡ byte 0 x)

abbrev pub Mirrored8 : ℕ → ℕ → Type 0
Mirrored8 x y =
    (byte 0 y ≡ byte 7 x)
    × (byte 1 y ≡ byte 6 x)
    × (byte 2 y ≡ byte 5 x)
    × (byte 3 y ≡ byte 4 x)
    × (byte 4 y ≡ byte 3 x)
    × (byte 5 y ≡ byte 2 x)
    × (byte 6 y ≡ byte 1 x)
    × (byte 7 y ≡ byte 0 x)

-- The trace `u` is what a machine of this byte order sees of a trace `t` that one of the other order
-- wrote: the bytes of each field are mirrored, and the payload is as it was.
pub record IsForeign (t u : BlkIoTrace) : Type 0 where
  pub magic : Mirrored4 t.magic u.magic
  pub sequence : Mirrored4 t.sequence u.sequence
  pub time : Mirrored8 t.time u.time
  pub sector : Mirrored8 t.sector u.sector
  pub bytes : Mirrored4 t.bytes u.bytes
  pub action : Mirrored4 t.action u.action
  pub pid : Mirrored4 t.pid u.pid
  pub device : Mirrored4 t.device u.device
  pub cpu : Mirrored4 t.cpu u.cpu
  pub error : Mirrored2 t.error u.error
  pub pdu_len : Mirrored2 t.pdu_len u.pdu_len
  pub pdu : u.pdu ≡ t.pdu

Mirrored2-bswap_16 : (x y : ℕ) → x < 2 ^ 16 → y < 2 ^ 16 → Mirrored2 x y → bswap_16 y ≡ x
unfolding bswap_16
Mirrored2-bswap_16 x y lx ly m = omega (arith, m.0, m.1)

Mirrored4-bswap_32 : (x y : ℕ) → x < 2 ^ 32 → y < 2 ^ 32 → Mirrored4 x y → bswap_32 y ≡ x
unfolding bswap_32
Mirrored4-bswap_32 x y lx ly m = omega (arith, m.0, m.1, m.2, m.3)

Mirrored8-bswap_64 : (x y : ℕ) → x < 2 ^ 64 → y < 2 ^ 64 → Mirrored8 x y → bswap_64 y ≡ x
unfolding bswap_64
Mirrored8-bswap_64 x y lx ly m = omega (
  arith,
  Mirrored4-bswap_32 (x / 2 ^ 32) (y % 2 ^ 32) (omega arith) (omega arith)
      (omega (arith, m.0), omega (arith, m.1), omega (arith, m.2), omega (arith, m.3)),
  Mirrored4-bswap_32 (x % 2 ^ 32) (y / 2 ^ 32) (omega arith) (omega arith)
      (omega (arith, m.4), omega (arith, m.5), omega (arith, m.6), omega (arith, m.7)),
)

swap_trace-IsForeign : (t u : BlkIoTrace) → InRange t → InRange u → IsForeign t u → swap_trace u ≡ t
unfolding swap_trace
swap_trace-IsForeign t u r v f = ground (
  arith,
  Mirrored4-bswap_32 t.magic u.magic r.magic_lt v.magic_lt f.magic,
  Mirrored4-bswap_32 t.sequence u.sequence r.sequence_lt v.sequence_lt f.sequence,
  Mirrored8-bswap_64 t.time u.time r.time_lt v.time_lt f.time,
  Mirrored8-bswap_64 t.sector u.sector r.sector_lt v.sector_lt f.sector,
  Mirrored4-bswap_32 t.bytes u.bytes r.bytes_lt v.bytes_lt f.bytes,
  Mirrored4-bswap_32 t.action u.action r.action_lt v.action_lt f.action,
  Mirrored4-bswap_32 t.pid u.pid r.pid_lt v.pid_lt f.pid,
  Mirrored4-bswap_32 t.device u.device r.device_lt v.device_lt f.device,
  Mirrored4-bswap_32 t.cpu u.cpu r.cpu_lt v.cpu_lt f.cpu,
  Mirrored2-bswap_16 t.error u.error r.error_lt v.error_lt f.error,
  Mirrored2-bswap_16 t.pdu_len u.pdu_len r.pdu_len_lt v.pdu_len_lt f.pdu_len,
  f.pdu,
)

verify_trace-magic : (t : BlkIoTrace) → verify_trace t ≡ true → t.magic ≡ 0x65617407
unfolding verify_trace
verify_trace-magic t h = ground arith

check_data_endianness_native : (m : ℕ) → m ≡ 0x65617407 → check_data_endianness m ≡ some true
unfolding check_data_endianness
check_data_endianness_native m e = rw e

check_data_endianness_foreign :
    (m n : ℕ) → m ≡ 0x65617407 → n < 2 ^ 32 → Mirrored4 m n → check_data_endianness n ≡ some false
unfolding check_data_endianness
check_data_endianness_foreign m n e lt f =
    let value : n ≡ 0x07746165 = omega (arith, e, f.0, f.1, f.2, f.3) in rw value

-- A reader of either byte order takes in a good trace unchanged. Let the trace t pass verify_trace,
-- and let u be t with the bytes of each field mirrored, as a machine of the other byte order wrote it;
-- the fields of both fit their C types. Reading t or u, check_data_endianness recognises which of the
-- two it is, and trace_to_cpu gives t.
pub trace_to_cpu-check_data_endianness :
    (t u : BlkIoTrace)
    → InRange t
    → InRange u
    → IsForeign t u
    → verify_trace t ≡ true
    → (check_data_endianness t.magic ≡ some true)
      × (trace_to_cpu (check_data_endianness t.magic) t ≡ t)
      × (check_data_endianness u.magic ≡ some false)
      × (trace_to_cpu (check_data_endianness u.magic) u ≡ t)
unfolding trace_to_cpu
trace_to_cpu-check_data_endianness t u r v f h =
    let good = verify_trace-magic t h in
    let own = check_data_endianness_native t.magic good in
    let foreign = check_data_endianness_foreign t.magic u.magic good v.magic_lt f.magic in
    (own, rw own, foreign, rw foreign (swap_trace-IsForeign t u r v f))

-- Whatever magic number a reader takes as good, for either byte order, it is one number: after
-- the conversion, a trace that check_data_endianness accepts has the upper 24 bits of the magic.
pub check_magic-trace_to_cpu :
    (t : BlkIoTrace) {b : Bool}
    → check_data_endianness t.magic ≡ some b
    → check_magic (trace_to_cpu (some b) t).magic ≡ true
unfolding check_data_endianness trace_to_cpu
check_magic-trace_to_cpu t {b} h = ground arith
