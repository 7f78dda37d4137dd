-- ===== src/Parse/Account/Volumes.antt =====
-- Bytes are counted exactly: a counter of KiB and one of the bytes over make up a sum of bytes.
use blktrace.Common.{
  ℕ, ◌+◌, ◌-◌, ◌*◌, ◌%◌, ◌^◌, ◌<◌, ◌≤◌, ◌≡◌, Bool, true, false, add64, sub64, arith,
}
use blktrace.Trace.Record.{BlkIoTrace}
use blktrace.Parse.IoStats.{IoStats}
use blktrace.Parse.Account.{
  account_m, account_pc_queue, account_pc_issue, account_pc_requeue, account_queue, account_c,
  account_issue, account_requeue,
}

-- The sum that a pair of counters stands for, as far as 64 bits hold it.
abbrev pub total_bytes : ℕ → ℕ → ℕ
total_bytes kb b = (kb * 2 ^ 10 + b) % 2 ^ 64

-- What the counters of bytes are kept for.
pub data Kind : Type 0 where
  queued merged issued completed queued_pc issued_pc : Kind

-- The functions that count bytes.
pub data Op : Type 0 where
  queue merge issue complete requeue pc_issue pc_requeue : Op

pub volume : Kind → Bool → IoStats → ℕ
volume queued true s = total_bytes s.qwrite_kb s.qwrite_b
volume queued false s = total_bytes s.qread_kb s.qread_b
volume merged true s = total_bytes s.mwrite_kb s.mwrite_b
volume merged false s = total_bytes s.mread_kb s.mread_b
volume issued true s = total_bytes s.iwrite_kb s.iwrite_b
volume issued false s = total_bytes s.iread_kb s.iread_b
volume completed true s = total_bytes s.cwrite_kb s.cwrite_b
volume completed false s = total_bytes s.cread_kb s.cread_b
volume queued_pc true s = total_bytes s.qwrite_kb_pc s.qwrite_b_pc
volume queued_pc false s = total_bytes s.qread_kb_pc s.qread_b_pc
volume issued_pc true s = total_bytes s.iwrite_kb_pc s.iwrite_b_pc
volume issued_pc false s = total_bytes s.iread_kb_pc s.iread_b_pc

-- The call that each operation stands for.
pub account : Op → IoStats → BlkIoTrace → Bool → IoStats
unfolding account_queue account_m account_issue account_c account_requeue account_pc_issue
    account_pc_requeue
account queue s t rw = account_queue s t rw
account merge s t rw = account_m s t rw
account issue s t rw = account_issue s t.bytes rw
account complete s t rw = account_c s t.bytes rw
account requeue s t rw = account_requeue s t rw
account pc_issue s t rw = account_pc_issue s t.bytes rw
account pc_requeue s t rw = account_pc_requeue s t rw

-- What an operation is to do to the sum of a kind.
pub data Effect : Type 0 where
  keeps adds takes : Effect

abbrev pub effect : Op → Kind → Effect
effect queue queued = adds
effect merge merged = adds
effect issue issued = adds
effect complete completed = adds
effect requeue issued = takes
effect pc_issue issued_pc = adds
effect pc_requeue issued_pc = takes
effect _ _ = keeps

abbrev pub change : Effect → ℕ → ℕ → ℕ
change keeps v b = v
change adds v b = add64 v b
change takes v b = sub64 v b

-- The change, in the direction of the operation only.
abbrev pub in_direction : Bool → Bool → Effect → Effect
in_direction true true e = e
in_direction false false e = e
in_direction _ _ e = keeps

-- account_queue, account_m, account_issue, account_c and account_pc_issue add the bytes of a trace to,
-- and account_requeue and account_pc_requeue take them from, the sum of their own kind and direction,
-- modulo 2 ^ 64, and change no other of the twelve sums. The trace is below 2 GiB, since account_c
-- takes its size as an int. account_pc_queue, which adds pc reads to qread_kb, is not among them.
pub volume-account :
    (op : Op) (k : Kind) (rw dir : Bool) (s : IoStats) (t : BlkIoTrace)
    → t.bytes < 2 ^ 31
    → volume k dir (account op s t rw)
      ≡ change (in_direction rw dir (effect op k)) (volume k dir s) t.bytes
unfolding volume account
volume-account queue k rw dir s t h = ground arith
volume-account merge k rw dir s t h = ground arith
volume-account issue k rw dir s t h = ground arith
volume-account complete k rw dir s t h = ground arith
volume-account requeue k rw dir s t h = ground arith
volume-account pc_issue k rw dir s t h = ground arith
volume-account pc_requeue k rw dir s t h = ground arith

-- Issuing a request and requeueing it puts the counts of dispatched bytes back: all that is left
-- is one more dispatch and one more requeue, in the direction of the trace. The counters hold 64
-- bits, and the size of the trace 32.
pub account_requeue-account_issue :
    (s : IoStats) (t : BlkIoTrace)
    → (s.iwrite_kb < 2 ^ 64) × (s.iwrite_b < 2 ^ 64) × (s.iread_kb < 2 ^ 64) × (s.iread_b < 2 ^ 64)
    → t.bytes < 2 ^ 32
    → (account_requeue (account_issue s t.bytes true) t true
        ≡ record s { iwrites = add64 s.iwrites 1; wrqueue = add64 s.wrqueue 1 })
      × (account_requeue (account_issue s t.bytes false) t false
          ≡ record s { ireads = add64 s.ireads 1; rrqueue = add64 s.rrqueue 1 })
unfolding account_requeue account_issue
account_requeue-account_issue s t r h = (ground arith, ground arith)

-- A write of a pc request counts all its bytes as queued pc bytes, and a read does not: the KiB of
-- a read go to the counter of the other requests, whose sum grows by them, and only the bytes over
-- a whole KiB go to the sum of queued pc reads. No hypothesis is made of the counters.
pub account_pc_queue-volume :
    (s : IoStats) (t : BlkIoTrace)
    → (volume queued_pc true (account_pc_queue s t true) ≡ add64 (volume queued_pc true s) t.bytes)
      × (volume queued_pc false (account_pc_queue s t false)
          ≡ add64 (volume queued_pc false s) (t.bytes % 2 ^ 10))
      × (volume queued false (account_pc_queue s t false)
          ≡ add64 (volume queued false s) (t.bytes - t.bytes % 2 ^ 10))
unfolding volume account_pc_queue
account_pc_queue-volume s t = (ground arith, ground arith, ground arith)

-- A completed transfer of 2 GiB or more is taken from the sum of completed bytes rather than
-- added: account_c takes the size as an int, so the sum grows by bytes - 2 ^ 32, modulo 2 ^ 64.
pub account_c-volume :
    (s : IoStats) (t : BlkIoTrace) (rw : Bool)
    → 2 ^ 31 ≤ t.bytes
    → t.bytes < 2 ^ 32
    → volume completed rw (account_c s t.bytes rw)
      ≡ sub64 (volume completed rw s) (2 ^ 32 - t.bytes)
unfolding volume account_c
account_c-volume s t true h k = ground arith
account_c-volume s t false h k = ground arith
