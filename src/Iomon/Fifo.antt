-- ===== src/Iomon/Fifo.antt =====
-- blkiomon_do_fifo: the loop over the traces that blktrace delivers. A trace that fread delivers
-- whole comes with whether its payload can be read; the loop ends at the end of the input. The
-- writing of driver data to another tool is the parameter dump, true where it succeeds.
pub mod Laws
use blktrace.Common.{
  ℕ, ◌+◌, ◌≡◌, Bool, true, false, not, ◌&&◌, Option, none, some, List, [], ◌∷◌, if◌then◌else◌, ◌==◌,
  has_bits,
}
use blktrace.Trace.Record.{BlkIoTrace}
use blktrace.Trace.Header.{Native, verify_trace, trace_to_cpu}
use blktrace.Trace.Tc
use blktrace.RawVerify.{Chunk, learn}
use blktrace.Parse.RbTree.{RbOps}
use blktrace.Iomon.Matching.{Iomon, do_trace}

-- data_is_native, the counters sequence and driverdata (of type long, taken as plain numbers), and
-- the rest of the statics
pub record Fifo : Type 0 where
  pub data_is_native : Native
  pub sequence : ℕ
  pub driverdata : ℕ
  pub iomon : Iomon

-- The ways out of the loop
pub data Stop : Type 0 where
  end_of_file : Stop
  endianess_problem : Stop
  bad_trace : Stop
  no_payload : Stop
  not_sent : Stop

-- After a trace: `continue` or the end of the body, `break`, or the division by zero
pub data FifoNext : Type 0 where
  continue : Fifo → FifoNext
  break : Stop → Fifo → FifoNext
  crash : FifoNext

-- The body after the checks
unfoldable pub take_trace : RbOps → (BlkIoTrace → Bool) → BlkIoTrace → Fifo → FifoNext
take_trace ops dump bit f =
    let f : Fifo = record f { sequence = f.sequence + 1 } in
    if has_bits bit.action (Tc.act Tc.drv_data)
    then (let f : Fifo = record f { driverdata = f.driverdata + 1 } in
        if dump bit then continue f else break not_sent f)
    else if not (has_bits bit.action (Tc.act (Tc.issue + Tc.complete)))
    then continue f
    else elim (do_trace ops bit f.iomon) [
      | none ↦ crash
      | some m ↦ continue (record f { iomon = m })
    ]

-- The body of the loop
unfoldable pub receive : RbOps → (BlkIoTrace → Bool) → Chunk → Fifo → FifoNext
unfolding learn trace_to_cpu verify_trace take_trace
receive ops dump c f = elim (learn f.data_is_native c.trace.magic) [
  | none ↦ break endianess_problem f
  | some native ↦
      let f : Fifo = record f { data_is_native = some native } in
      let bit = trace_to_cpu (some native) c.trace in
      if not (verify_trace bit)
      then break bad_trace f
      else if not (bit.pdu_len == 0) && not c.payload
      then break no_payload f
      else take_trace ops dump bit f
]

unfoldable pub do_fifo : RbOps → (BlkIoTrace → Bool) → List Chunk → Fifo → FifoNext
unfolding receive
do_fifo ops dump [] f = break end_of_file f
do_fifo ops dump (c ∷ cs) f = elim (receive ops dump c f) [
  | continue f' ↦ do_fifo ops dump cs f'
  | break why f' ↦ break why f'
  | crash ↦ crash
]
