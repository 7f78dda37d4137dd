-- ===== src/Tests/Replay.antt =====
-- Two IOs, recorded and replayed.
use blktrace.Common.{
  Bool, ◌+◌, ◌^◌, ◌*◌, ◌<◌, ◌≤◌, ◌≡◌, refl, sym, subst, true, false, Option, none, some, List, [],
  ◌∷◌, arith, length, Option-cases, inl, inr,
}
use blktrace.Trace.Header.{check_data_endianness, trace_to_cpu}
use blktrace.Trace.Ta
use blktrace.Trace.Tc
use blktrace.Parse.Streams.{File}
use blktrace.Btrecord.{IoPkt, IoBunch, IoFileHdr, Limits, match, spec_of, process_file}
use blktrace.Btrecord.Input.{ios, AllOrder}
use blktrace.Btrecord.Recording.{InOrder, Recorded, process_file-Recorded}
use blktrace.Btreplay.{
  Settings, at_nfree, sub_done, sub_failed, at_test, rec_done, Point, is_send_done, is_reap_done,
  signal_sub, signal_rec, as_allowed, setup_ok, all_ok, tip_init, next_bunch, nfree_current,
  iocbs_map, io_submit, account, replay_sub, finish, io_getevents, reclaim_ios, replay_rec, by_sub,
  by_rec, Reach, start, by_step,
}
use blktrace.Btreplay.Threads.{IsConsistent, bunch_ok, bunches_ok}
use blktrace.Btreplay.Reached.{Reach-IsConsistent}
use blktrace.Btreplay.Progress.{Stuck, Finished, Reach-Finished}
use blktrace.Btreplay.Measure.{load}
use blktrace.Btreplay.Runs.{Run, stay, go_on, Run-bound}
use blktrace.Btreplay.Faults.{signal-failed}
use blktrace.Tests.Data.{trace_of, read_fs, write_fs}

abbrev traces : File
traces =
    (trace_of 1 100 64 (read_fs Ta.queue + Tc.act Tc.queue) 0, true)
    ∷ (trace_of 2 300 72 (write_fs Ta.queue + Tc.act Tc.queue) 0, true)
    ∷ []

abbrev limits : Limits
limits = record { max_bunch_tm = 10000000; max_pkts_per_bunch = 8 }

abbrev bunches : List IoBunch
bunches =
    record {
      npkts = 2;
      time_stamp = 100;
      pkts =
          record { sector = 64; nbytes = 4096; rw = true }
          ∷ record { sector = 72; nbytes = 4096; rw = false }
          ∷ [];
    }
    ∷ []

abbrev header : IoFileHdr
header = record { genesis = 100; nbunches = 0; total_pkts = 0 }

at_least : 1 ≤ 8
at_least = omega arith

at_most : 8 ≤ 512
at_most = omega arith

traces-AllOrder : AllOrder true traces
unfolding check_data_endianness
traces-AllOrder = (refl, (refl, tt))

traces-InOrder : InOrder limits at_least at_most 0 (ios true traces)
unfolding ios match spec_of trace_to_cpu
traces-InOrder = (omega arith, (omega arith, tt))

traces_few : length (ios true traces) < 2 ^ 64
unfolding ios match spec_of trace_to_cpu
traces_few = omega arith

process_file-Recorded_example :
    (hdr : IoFileHdr) × (bs : List IoBunch) × (process_file limits traces ≡ some (hdr, bs))
    × Recorded limits at_least at_most (ios true traces) hdr bs
process_file-Recorded_example =
    process_file-Recorded limits at_least at_most true traces traces-AllOrder traces-InOrder
      traces_few

abbrev options : Settings
options = record { naios = 4; write_enabled = false }

-- A step of a thread, where it can make one
abbrev after : Point → Option Point → Point
after s none = s
after s (some t) = t

step_sub : Point → Point
step_sub s = after s (replay_sub options s.0 s.1 s.2)

step_rec : Point → Point
step_rec s = after s (replay_rec 2 s.0 s.1 s.2)

-- Steps of replay_sub (true) and replay_rec (false)
schedule : List Bool → Point → Point
schedule [] s = s
schedule (true ∷ l) s = schedule l (step_sub s)
schedule (false ∷ l) s = schedule l (step_rec s)

schedule-Reach : (l : List Bool) (i s : Point) → Reach options i s → Reach options i (schedule l s)
unfolding schedule step_sub step_rec
schedule-Reach [] i s r = r
schedule-Reach (true ∷ l) i s r =
    schedule-Reach l i (step_sub s) (elim (Option-cases (replay_sub options s.0 s.1 s.2)) [
      | inl e ↦ subst (λ o. Reach options i (after s o)) (sym e) r
      | inr (t, e) ↦ subst (λ o. Reach options i (after s o)) (sym e) (by_step r (by_sub e))
    ])
schedule-Reach (false ∷ l) i s r =
    schedule-Reach l i (step_rec s) (elim (Option-cases (replay_rec 2 s.0 s.1 s.2)) [
      | inl e ↦ subst (λ o. Reach options i (after s o)) (sym e) r
      | inr (t, e) ↦ subst (λ o. Reach options i (after s o)) (sym e) (by_step r (by_rec 2 e))
    ])

abbrev allowed : List IoPkt
allowed =
    record { sector = 64; nbytes = 4096; rw = true }
    ∷ record { sector = 72; nbytes = 4096; rw = true }
    ∷ []

-- All packets are sent and done, and both threads have ended.
abbrev ended : Point
ended = (
  sub_done,
  rec_done,
  record {
    free_iocbs = 4;
    used_iocbs = 0;
    naios_out = 0;
    naios_free = 4;
    send_wait = false;
    reap_wait = false;
    send_done = true;
    reap_done = true;
    ifd = [];
    flight = 0;
    sent = allowed;
    signal_done = false;
  },
)

abbrev whole_run : List Bool
whole_run =
    true ∷ true ∷ true ∷ true ∷ true ∷ true ∷ false ∷ false ∷ false ∷ false ∷ false ∷ true ∷ true
    ∷ false ∷ []

ended-Reach : Reach options (tip_init options bunches) ended
unfolding schedule step_sub step_rec next_bunch nfree_current iocbs_map io_submit account replay_sub
    finish io_getevents reclaim_ios replay_rec is_send_done is_reap_done signal_sub signal_rec
    as_allowed setup_ok all_ok tip_init
ended-Reach = schedule-Reach whole_run (tip_init options bunches) (tip_init options bunches) start

bunches-good : bunches_ok bunches ≡ true
unfolding bunches_ok bunch_ok all_ok setup_ok
bunches-good = refl

ended-Stuck : Stuck options ended
unfolding replay_sub replay_rec
ended-Stuck t (by_sub h) = cc
ended-Stuck t (by_rec n h) = cc

Reach-IsConsistent_example : IsConsistent options bunches ended
Reach-IsConsistent_example = Reach-IsConsistent options bunches bunches-good ended ended-Reach

Reach-Finished_example : Finished options bunches ended
Reach-Finished_example =
    Reach-Finished options (omega arith) bunches bunches-good ended ended-Reach refl ended-Stuck

abbrev two_steps : Point
two_steps = (
  at_nfree (
      record { sector = 64; nbytes = 4096; rw = true }
      ∷ record { sector = 72; nbytes = 4096; rw = false }
      ∷ []),
  at_test,
  record {
    free_iocbs = 4;
    used_iocbs = 0;
    naios_out = 0;
    naios_free = 4;
    send_wait = false;
    reap_wait = false;
    send_done = false;
    reap_done = false;
    ifd = [];
    flight = 0;
    sent = [];
    signal_done = false;
  },
)

two_steps-Run : Run options 2 (tip_init options bunches) two_steps
unfolding next_bunch nfree_current iocbs_map io_submit account replay_sub finish io_getevents
    reclaim_ios replay_rec is_send_done is_reap_done signal_sub signal_rec as_allowed setup_ok
    all_ok tip_init
two_steps-Run = go_on (by_sub refl) (go_on (by_sub refl) stay)

Run-bound_example : 2 ≤ 20 * load bunches + 6 * length bunches + 6
Run-bound_example = Run-bound options bunches 2 two_steps bunches-good two_steps-Run

two_steps-Reach : Reach options (tip_init options bunches) two_steps
unfolding schedule step_sub step_rec next_bunch nfree_current iocbs_map io_submit account replay_sub
    finish io_getevents reclaim_ios replay_rec is_send_done is_reap_done signal_sub signal_rec
    as_allowed setup_ok all_ok tip_init
two_steps-Reach =
    schedule-Reach (true ∷ true ∷ []) (tip_init options bunches) (tip_init options bunches) start

signal-failed_example :
    Reach options
      (tip_init options bunches)
      (sub_failed, at_test, record two_steps.2 { signal_done = true })
signal-failed_example =
    signal-failed options bunches
      (record { sector = 64; nbytes = 4096; rw = true }
        ∷ record { sector = 72; nbytes = 4096; rw = false }
        ∷ [])
      at_test two_steps.2 two_steps-Reach
