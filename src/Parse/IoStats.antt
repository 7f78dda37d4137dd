-- ===== src/Parse/IoStats.antt =====
-- struct io_stats of blktrace.h. Every counter is 64 bits wide and wraps.
use blktrace.Common.{ℕ, add64}

pub record IoStats : Type 0 where
  pub qreads : ℕ
  pub qwrites : ℕ
  pub creads : ℕ
  pub cwrites : ℕ
  pub mreads : ℕ
  pub mwrites : ℕ
  pub ireads : ℕ
  pub iwrites : ℕ
  pub rrqueue : ℕ
  pub wrqueue : ℕ
  pub qread_kb : ℕ
  pub qwrite_kb : ℕ
  pub cread_kb : ℕ
  pub cwrite_kb : ℕ
  pub qread_b : ℕ
  pub qwrite_b : ℕ
  pub cread_b : ℕ
  pub cwrite_b : ℕ
  pub iread_kb : ℕ
  pub iwrite_kb : ℕ
  pub mread_kb : ℕ
  pub mwrite_kb : ℕ
  pub mread_b : ℕ
  pub mwrite_b : ℕ
  pub iread_b : ℕ
  pub iwrite_b : ℕ
  pub qreads_pc : ℕ
  pub qwrites_pc : ℕ
  pub ireads_pc : ℕ
  pub iwrites_pc : ℕ
  pub rrqueue_pc : ℕ
  pub wrqueue_pc : ℕ
  pub creads_pc : ℕ
  pub cwrites_pc : ℕ
  pub qread_kb_pc : ℕ
  pub qwrite_kb_pc : ℕ
  pub iread_kb_pc : ℕ
  pub iwrite_kb_pc : ℕ
  pub qread_b_pc : ℕ
  pub qwrite_b_pc : ℕ
  pub iread_b_pc : ℕ
  pub iwrite_b_pc : ℕ
  pub io_unplugs : ℕ
  pub timer_unplugs : ℕ

-- memset(ios, 0, sizeof(*ios))
abbrev pub zero_stats : IoStats
zero_stats = record {
  qreads = 0;
  qwrites = 0;
  creads = 0;
  cwrites = 0;
  mreads = 0;
  mwrites = 0;
  ireads = 0;
  iwrites = 0;
  rrqueue = 0;
  wrqueue = 0;
  qread_kb = 0;
  qwrite_kb = 0;
  cread_kb = 0;
  cwrite_kb = 0;
  qread_b = 0;
  qwrite_b = 0;
  cread_b = 0;
  cwrite_b = 0;
  iread_kb = 0;
  iwrite_kb = 0;
  mread_kb = 0;
  mwrite_kb = 0;
  mread_b = 0;
  mwrite_b = 0;
  iread_b = 0;
  iwrite_b = 0;
  qreads_pc = 0;
  qwrites_pc = 0;
  ireads_pc = 0;
  iwrites_pc = 0;
  rrqueue_pc = 0;
  wrqueue_pc = 0;
  creads_pc = 0;
  cwrites_pc = 0;
  qread_kb_pc = 0;
  qwrite_kb_pc = 0;
  iread_kb_pc = 0;
  iwrite_kb_pc = 0;
  qread_b_pc = 0;
  qwrite_b_pc = 0;
  iread_b_pc = 0;
  iwrite_b_pc = 0;
  io_unplugs = 0;
  timer_unplugs = 0;
}

-- The body of the loop over the CPUs in show_device_and_cpu_stats: `total.f += ios->f` for every
-- field.
unfoldable pub add_total : IoStats → IoStats → IoStats
add_total total ios = record {
  qreads = add64 total.qreads ios.qreads;
  qwrites = add64 total.qwrites ios.qwrites;
  creads = add64 total.creads ios.creads;
  cwrites = add64 total.cwrites ios.cwrites;
  mreads = add64 total.mreads ios.mreads;
  mwrites = add64 total.mwrites ios.mwrites;
  ireads = add64 total.ireads ios.ireads;
  iwrites = add64 total.iwrites ios.iwrites;
  rrqueue = add64 total.rrqueue ios.rrqueue;
  wrqueue = add64 total.wrqueue ios.wrqueue;
  qread_kb = add64 total.qread_kb ios.qread_kb;
  qwrite_kb = add64 total.qwrite_kb ios.qwrite_kb;
  cread_kb = add64 total.cread_kb ios.cread_kb;
  cwrite_kb = add64 total.cwrite_kb ios.cwrite_kb;
  qread_b = add64 total.qread_b ios.qread_b;
  qwrite_b = add64 total.qwrite_b ios.qwrite_b;
  cread_b = add64 total.cread_b ios.cread_b;
  cwrite_b = add64 total.cwrite_b ios.cwrite_b;
  iread_kb = add64 total.iread_kb ios.iread_kb;
  iwrite_kb = add64 total.iwrite_kb ios.iwrite_kb;
  mread_kb = add64 total.mread_kb ios.mread_kb;
  mwrite_kb = add64 total.mwrite_kb ios.mwrite_kb;
  mread_b = add64 total.mread_b ios.mread_b;
  mwrite_b = add64 total.mwrite_b ios.mwrite_b;
  iread_b = add64 total.iread_b ios.iread_b;
  iwrite_b = add64 total.iwrite_b ios.iwrite_b;
  qreads_pc = add64 total.qreads_pc ios.qreads_pc;
  qwrites_pc = add64 total.qwrites_pc ios.qwrites_pc;
  ireads_pc = add64 total.ireads_pc ios.ireads_pc;
  iwrites_pc = add64 total.iwrites_pc ios.iwrites_pc;
  rrqueue_pc = add64 total.rrqueue_pc ios.rrqueue_pc;
  wrqueue_pc = add64 total.wrqueue_pc ios.wrqueue_pc;
  creads_pc = add64 total.creads_pc ios.creads_pc;
  cwrites_pc = add64 total.cwrites_pc ios.cwrites_pc;
  qread_kb_pc = add64 total.qread_kb_pc ios.qread_kb_pc;
  qwrite_kb_pc = add64 total.qwrite_kb_pc ios.qwrite_kb_pc;
  iread_kb_pc = add64 total.iread_kb_pc ios.iread_kb_pc;
  iwrite_kb_pc = add64 total.iwrite_kb_pc ios.iwrite_kb_pc;
  qread_b_pc = add64 total.qread_b_pc ios.qread_b_pc;
  qwrite_b_pc = add64 total.qwrite_b_pc ios.qwrite_b_pc;
  iread_b_pc = add64 total.iread_b_pc ios.iread_b_pc;
  iwrite_b_pc = add64 total.iwrite_b_pc ios.iwrite_b_pc;
  io_unplugs = add64 total.io_unplugs ios.io_unplugs;
  timer_unplugs = add64 total.timer_unplugs ios.timer_unplugs;
}
