-- ===== src/Trace/Tc.antt =====
-- The trace categories: the first enum of blktrace_api.h.
use blktrace.Common.{ℕ, ◌*◌, ◌^◌}

-- BLK_TC_READ
abbrev pub read : ℕ
read = 2 ^ 0

-- BLK_TC_WRITE
abbrev pub write : ℕ
write = 2 ^ 1

-- BLK_TC_FLUSH
abbrev pub flush : ℕ
flush = 2 ^ 2

-- BLK_TC_SYNC
abbrev pub sync : ℕ
sync = 2 ^ 3

-- BLK_TC_QUEUE
abbrev pub queue : ℕ
queue = 2 ^ 4

-- BLK_TC_REQUEUE
abbrev pub requeue : ℕ
requeue = 2 ^ 5

-- BLK_TC_ISSUE
abbrev pub issue : ℕ
issue = 2 ^ 6

-- BLK_TC_COMPLETE
abbrev pub complete : ℕ
complete = 2 ^ 7

-- BLK_TC_FS
abbrev pub fs : ℕ
fs = 2 ^ 8

-- BLK_TC_PC
abbrev pub pc : ℕ
pc = 2 ^ 9

-- BLK_TC_NOTIFY
abbrev pub notify : ℕ
notify = 2 ^ 10

-- BLK_TC_AHEAD
abbrev pub ahead : ℕ
ahead = 2 ^ 11

-- BLK_TC_META
abbrev pub meta : ℕ
meta = 2 ^ 12

-- BLK_TC_DISCARD
abbrev pub discard : ℕ
discard = 2 ^ 13

-- BLK_TC_DRV_DATA
abbrev pub drv_data : ℕ
drv_data = 2 ^ 14

-- BLK_TC_FUA
abbrev pub fua : ℕ
fua = 2 ^ 15

-- BLK_TC_SHIFT
abbrev pub shift : ℕ
shift = 16

-- BLK_TC_ACT(act)
abbrev pub act : ℕ → ℕ
act c = c * 2 ^ shift
