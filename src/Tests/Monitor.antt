-- ===== src/Tests/Monitor.antt =====
-- blkiomon on a few traces.
use blktrace.Common.{
  ◌+◌, ◌*◌, ◌≡◌, refl, true, Option, none, some, List, [], ◌∷◌, length, inl, arith,
}
use blktrace.Trace.Record.{BlkIoTrace}
use blktrace.Trace.Tc
use blktrace.Trace.Header.{verify_trace, check_magic, trace_to_cpu}
use blktrace.RawVerify.{Chunk}
use blktrace.Iomon.{blkiomon_account}
use blktrace.Iomon.Devices.{no_dstats, blkiomon_interval, account_dstat, get_dstat, put_dstat}
use blktrace.Iomon.Devices.Interval.{account_device, stamped, stats_for}
use blktrace.Iomon.Matching.{
  Iomon, start, same_request, action, do_traces, do_trace, fetch_trace, store_trace, older, younger,
  d_then_c,
}
use blktrace.Iomon.Matching.Summary.{pairs, nothing_waits, do_traces-blkiomon_interval}
use blktrace.Iomon.Matching.Totals.{Slow, held, do_traces-seen}
use blktrace.Iomon.Fifo.{do_fifo}
use blktrace.Iomon.Fifo.Laws.{
  IsGood, is_drv_data, is_matched, traces, filter, ended, do_fifo-do_traces,
}
use blktrace.Tests.Data.{trace_of, read_fs, write_fs, plain_ops}

-- Two requests, of which the second is not completed, and a completion that nothing waits for
abbrev issued : BlkIoTrace
issued = trace_of 1 1000000 64 (read_fs (Tc.act Tc.issue)) 0

abbrev completed : BlkIoTrace
completed = trace_of 3 5000000 64 (read_fs (Tc.act Tc.complete)) 0

abbrev alone : BlkIoTrace
alone = trace_of 2 2000000 192 (write_fs (Tc.act Tc.issue)) 0

abbrev monitored : List BlkIoTrace
monitored = issued ∷ alone ∷ completed ∷ []

abbrev state_of : Option Iomon → Iomon
state_of none = start
state_of (some m) = m

abbrev gathered : Iomon
gathered = state_of (do_traces plain_ops monitored start)

gathered_lem : do_traces plain_ops monitored start ≡ some gathered
unfolding do_traces do_trace fetch_trace store_trace older younger d_then_c account_dstat get_dstat
    put_dstat blkiomon_account
gathered_lem = refl

monitored-Slow : Slow monitored
unfolding same_request action
monitored-Slow = (
  (omega arith, ((λ h. cc), ((λ h. inl (omega arith)), tt))),
  ((omega arith, ((λ h. cc), tt)), ((omega arith, tt), tt)),
)

abbrev chunks : List Chunk
chunks = record { trace = issued; payload = true } ∷ []

good : IsGood true (λ t. true) (record { trace = issued; payload = true })
unfolding verify_trace check_magic trace_to_cpu
good = (refl, refl, λ h. refl)

do_traces-blkiomon_interval_example :
    stats_for 8388608
      (blkiomon_interval 7 (record { current = gathered.dstats; other = no_dstats })).0
    ≡ stamped 7 (account_device 8388608 (pairs nothing_waits monitored) none)
do_traces-blkiomon_interval_example =
    do_traces-blkiomon_interval plain_ops monitored gathered 7 no_dstats gathered_lem 8388608

do_traces-seen_example :
    (m : Iomon) × (do_traces plain_ops monitored start ≡ some m)
    × (held 128 m.thash + 2 * m.matched + m.mismatched ≡ length monitored)
do_traces-seen_example = do_traces-seen plain_ops monitored monitored-Slow

do_fifo-do_traces_example :
    do_fifo plain_ops
      (λ t. true)
      chunks
      (record { data_is_native = some true; sequence = 0; driverdata = 0; iomon = start })
    ≡ ended
        (0 + length chunks)
        (0 + length (filter is_drv_data (traces true chunks)))
        true
        (do_traces plain_ops (filter is_matched (traces true chunks)) start)
do_fifo-do_traces_example = do_fifo-do_traces plain_ops (λ t. true) true chunks 0 0 start (good, tt)
