-- ===== src/Trace/Ta.antt =====
-- The basic trace actions and the notify events: the other enums of blktrace_api.h.
use blktrace.Common.{ℕ, ◌+◌}
use blktrace.Trace.Tc

-- __BLK_TA_QUEUE
abbrev pub queue : ℕ
queue = 1

-- __BLK_TA_BACKMERGE
abbrev pub backmerge : ℕ
backmerge = 2

-- __BLK_TA_FRONTMERGE
abbrev pub frontmerge : ℕ
frontmerge = 3

-- __BLK_TA_GETRQ
abbrev pub getrq : ℕ
getrq = 4

-- __BLK_TA_SLEEPRQ
abbrev pub sleeprq : ℕ
sleeprq = 5

-- __BLK_TA_REQUEUE
abbrev pub requeue : ℕ
requeue = 6

-- __BLK_TA_ISSUE
abbrev pub issue : ℕ
issue = 7

-- __BLK_TA_COMPLETE
abbrev pub complete : ℕ
complete = 8

-- __BLK_TA_PLUG
abbrev pub plug : ℕ
plug = 9

-- __BLK_TA_UNPLUG_IO
abbrev pub unplug_io : ℕ
unplug_io = 10

-- __BLK_TA_UNPLUG_TIMER
abbrev pub unplug_timer : ℕ
unplug_timer = 11

-- __BLK_TA_INSERT
abbrev pub insert : ℕ
insert = 12

-- __BLK_TA_SPLIT
abbrev pub split : ℕ
split = 13

-- __BLK_TA_BOUNCE
abbrev pub bounce : ℕ
bounce = 14

-- __BLK_TA_REMAP
abbrev pub remap : ℕ
remap = 15

-- __BLK_TA_ABORT
abbrev pub abort : ℕ
abort = 16

-- __BLK_TA_DRV_DATA
abbrev pub drv_data : ℕ
drv_data = 17

-- BLK_TN_PROCESS
abbrev pub notify_process : ℕ
notify_process = 0 + Tc.act Tc.notify

-- BLK_TN_TIMESTAMP
abbrev pub notify_timestamp : ℕ
notify_timestamp = 1 + Tc.act Tc.notify

-- BLK_TN_MESSAGE
abbrev pub notify_message : ℕ
notify_message = 2 + Tc.act Tc.notify
