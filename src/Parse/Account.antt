-- ===== src/Parse/Account.antt =====
-- The functions __account_* of blkparse.c, which count one trace in one struct io_stats. `true` is
-- a write.
pub mod Volumes
use blktrace.Common.{
  ℕ, ◌+◌, ◌-◌, ◌/◌, ◌%◌, ◌^◌, Bool, true, false, add64, sub64, if◌then◌else◌, ltb,
}
use blktrace.Trace.Record.{BlkIoTrace}
use blktrace.Trace.Header.{t_kb, t_b}
use blktrace.Parse.IoStats.{IoStats}

-- __account_m
unfoldable pub account_m : IoStats → BlkIoTrace → Bool → IoStats
unfolding t_kb t_b
account_m ios t true = record ios {
  mwrites = add64 ios.mwrites 1;
  mwrite_kb = add64 ios.mwrite_kb (t_kb t);
  mwrite_b = add64 ios.mwrite_b (t_b t);
}
account_m ios t false = record ios {
  mreads = add64 ios.mreads 1;
  mread_kb = add64 ios.mread_kb (t_kb t);
  mread_b = add64 ios.mread_b (t_b t);
}

-- __account_pc_queue. The read branch adds to `qread_kb`, not to `qread_kb_pc`.
unfoldable pub account_pc_queue : IoStats → BlkIoTrace → Bool → IoStats
unfolding t_kb t_b
account_pc_queue ios t true = record ios {
  qwrites_pc = add64 ios.qwrites_pc 1;
  qwrite_kb_pc = add64 ios.qwrite_kb_pc (t_kb t);
  qwrite_b_pc = add64 ios.qwrite_b_pc (t_b t);
}
account_pc_queue ios t false = record ios {
  qreads_pc = add64 ios.qreads_pc 1;
  qread_kb = add64 ios.qread_kb (t_kb t);
  qread_b_pc = add64 ios.qread_b_pc (t_b t);
}

-- __account_pc_issue
unfoldable pub account_pc_issue : IoStats → ℕ → Bool → IoStats
account_pc_issue ios bytes true = record ios {
  iwrites_pc = add64 ios.iwrites_pc 1;
  iwrite_kb_pc = add64 ios.iwrite_kb_pc (bytes / 2 ^ 10);
  iwrite_b_pc = add64 ios.iwrite_b_pc (bytes % 2 ^ 10);
}
account_pc_issue ios bytes false = record ios {
  ireads_pc = add64 ios.ireads_pc 1;
  iread_kb_pc = add64 ios.iread_kb_pc (bytes / 2 ^ 10);
  iread_b_pc = add64 ios.iread_b_pc (bytes % 2 ^ 10);
}

-- __account_pc_requeue
unfoldable pub account_pc_requeue : IoStats → BlkIoTrace → Bool → IoStats
unfolding t_kb t_b
account_pc_requeue ios t true = record ios {
  wrqueue_pc = add64 ios.wrqueue_pc 1;
  iwrite_kb_pc = sub64 ios.iwrite_kb_pc (t_kb t);
  iwrite_b_pc = sub64 ios.iwrite_b_pc (t_b t);
}
account_pc_requeue ios t false = record ios {
  rrqueue_pc = add64 ios.rrqueue_pc 1;
  iread_kb_pc = sub64 ios.iread_kb_pc (t_kb t);
  iread_b_pc = sub64 ios.iread_b_pc (t_b t);
}

-- __account_pc_c
unfoldable pub account_pc_c : IoStats → Bool → IoStats
account_pc_c ios true = record ios { cwrites_pc = add64 ios.cwrites_pc 1 }
account_pc_c ios false = record ios { creads_pc = add64 ios.creads_pc 1 }

-- __account_queue
unfoldable pub account_queue : IoStats → BlkIoTrace → Bool → IoStats
unfolding t_kb t_b
account_queue ios t true = record ios {
  qwrites = add64 ios.qwrites 1;
  qwrite_kb = add64 ios.qwrite_kb (t_kb t);
  qwrite_b = add64 ios.qwrite_b (t_b t);
}
account_queue ios t false = record ios {
  qreads = add64 ios.qreads 1;
  qread_kb = add64 ios.qread_kb (t_kb t);
  qread_b = add64 ios.qread_b (t_b t);
}

-- `bytes >> 10` where `bytes` is an int that holds the 32 bits of a __u32, then converted to
-- unsigned long long: the sign bit is carried into the upper bits.
unfoldable pub int_kb : ℕ → ℕ
int_kb bytes = if ltb bytes (2 ^ 31) then bytes / 2 ^ 10 else bytes / 2 ^ 10 + (2 ^ 64 - 2 ^ 22)

-- __account_c, whose parameter is an int
unfoldable pub account_c : IoStats → ℕ → Bool → IoStats
unfolding int_kb
account_c ios bytes true = record ios {
  cwrites = add64 ios.cwrites 1;
  cwrite_kb = add64 ios.cwrite_kb (int_kb bytes);
  cwrite_b = add64 ios.cwrite_b (bytes % 2 ^ 10);
}
account_c ios bytes false = record ios {
  creads = add64 ios.creads 1;
  cread_kb = add64 ios.cread_kb (int_kb bytes);
  cread_b = add64 ios.cread_b (bytes % 2 ^ 10);
}

-- __account_issue
unfoldable pub account_issue : IoStats → ℕ → Bool → IoStats
account_issue ios bytes true = record ios {
  iwrites = add64 ios.iwrites 1;
  iwrite_kb = add64 ios.iwrite_kb (bytes / 2 ^ 10);
  iwrite_b = add64 ios.iwrite_b (bytes % 2 ^ 10);
}
account_issue ios bytes false = record ios {
  ireads = add64 ios.ireads 1;
  iread_kb = add64 ios.iread_kb (bytes / 2 ^ 10);
  iread_b = add64 ios.iread_b (bytes % 2 ^ 10);
}

-- __account_unplug; the flag is `timer`
unfoldable pub account_unplug : IoStats → Bool → IoStats
account_unplug ios true = record ios { timer_unplugs = add64 ios.timer_unplugs 1 }
account_unplug ios false = record ios { io_unplugs = add64 ios.io_unplugs 1 }

-- __account_requeue
unfoldable pub account_requeue : IoStats → BlkIoTrace → Bool → IoStats
unfolding t_kb t_b
account_requeue ios t true = record ios {
  wrqueue = add64 ios.wrqueue 1;
  iwrite_kb = sub64 ios.iwrite_kb (t_kb t);
  iwrite_b = sub64 ios.iwrite_b (t_b t);
}
account_requeue ios t false = record ios {
  rrqueue = add64 ios.rrqueue 1;
  iread_kb = sub64 ios.iread_kb (t_kb t);
  iread_b = sub64 ios.iread_b (t_b t);
}
