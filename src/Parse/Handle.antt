-- ===== src/Parse/Handle.antt =====
-- handle of blkparse.c, called on the traces of the streams in turn: the stopwatch and the mask of
-- actions choose what is given to dump_trace.
pub mod Window
use blktrace.Common.{
  ℕ, ◌*◌, ◌^◌, ◌-◌, ◌%◌, ◌+◌, Bool, true, false, ◌&&◌, Option, none, some, List, [], ◌∷◌,
  if◌then◌else◌, ltb, leb, sub64, has_bits,
}
use blktrace.Trace.Record.{BlkIoTrace}
use blktrace.Trace.Tc

-- genesis_time, stopwatch_start, stopwatch_end and act_mask
pub record Stopwatch : Type 0 where
  pub genesis_time : ℕ
  pub stopwatch_start : ℕ
  pub stopwatch_end : ℕ
  pub act_mask : ℕ

-- bit->time -= genesis_time
unfoldable pub rebase : Stopwatch → BlkIoTrace → BlkIoTrace
rebase w bit = record bit { time = sub64 bit.time w.genesis_time }

-- Is the trace, with its new time, given to dump_trace?
unfoldable pub is_shown : Stopwatch → BlkIoTrace → Bool
is_shown w bit = has_bits bit.action (w.act_mask * 2 ^ Tc.shift) && leb w.stopwatch_start bit.time

-- handle: `none` is the return value 0, which ends the loop; else the trace with its new time, and
-- whether dump_trace is called on it.
unfoldable pub handle : Stopwatch → BlkIoTrace → Option (BlkIoTrace × Bool)
unfolding rebase is_shown
handle w bit =
    let bit' = rebase w bit in
    if ltb w.stopwatch_end bit'.time then none else some (bit', is_shown w bit')

-- The loop of do_file over the traces that are next in turn: those on which dump_trace is called.
unfoldable pub handle_loop : Stopwatch → List BlkIoTrace → List BlkIoTrace
unfolding handle
handle_loop w [] = []
handle_loop w (bit ∷ bits) =
    let rest = handle_loop w bits in
    elim (handle w bit) [ none ↦ [] | some (bit', shown) ↦ if shown then bit' ∷ rest else rest ]
