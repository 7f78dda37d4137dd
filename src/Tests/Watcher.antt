-- ===== src/Tests/Watcher.antt =====
-- iowatcher on a few traces.
use blktrace.Common.{
  ℕ, zero, suc, ◌+◌, ◌<◌, ◌^◌, ◌≡◌, refl, true, Option, none, some, List, [], ◌∷◌, ◌⊎◌, inl, ◌≤◌,
  arith, All,
}
use blktrace.Trace.Record.{BlkIoTrace}
use blktrace.Trace.Tc
use blktrace.Trace.Ta
use blktrace.Iowatcher.{Found, is_notify_event, masked, datadir}
use blktrace.Trace.Header.{seconds}
use blktrace.Iowatcher.Pending.Laws.{IsValid}
use blktrace.Iowatcher.Lines.{Graphs, alloc_line_data, second_of, is_left_out, read_trace_events}
use blktrace.Iowatcher.Lines.Bounds.{Sized, Fits, read_trace_events-Fits}
use blktrace.Iowatcher.Lines.Peaks.{sum_at}
use blktrace.Iowatcher.Lines.Sums.{
  in_second, in_all, until, Sums, AllSums, reads_of, writes_of, operations_of,
  read_trace_events-AllSums,
}
use blktrace.Iowatcher.Lines.Turns.{read_bytes, write_bytes, operations}
use blktrace.Iowatcher.Lines.Lifecycle.{IsEvent, Completed, read_trace_events-Completed}
use blktrace.Iowatcher.Devices.{DevInfo, map_devices, map_io, scan_devices}
use blktrace.Iowatcher.Devices.Layout.{IsRange}
use blktrace.Iowatcher.Devices.Places.{extent, map_devices-apart}
use blktrace.Tests.Data.{trace_of, read_fs, write_fs}

-- A dispatch, the queueing of another request, and the completion of the first, a second later
abbrev sent : BlkIoTrace
sent = trace_of 1 1000000 64 (read_fs (Ta.issue + Tc.act Tc.issue)) 0

abbrev other : BlkIoTrace
other = trace_of 2 2000000 192 (write_fs (Ta.queue + Tc.act Tc.queue)) 0

abbrev done : BlkIoTrace
done = trace_of 3 1002000000 64 (read_fs (Ta.complete + Tc.act Tc.complete)) 0

abbrev events : Found
events = record { completion = true; issue = true; queue = true }

abbrev fresh_graphs : Graphs
fresh_graphs = record {
  tput_writes = alloc_line_data 2;
  tput_reads = alloc_line_data 2;
  iop = alloc_line_data 2;
  queue_depth = alloc_line_data 2;
  latency = alloc_line_data 2;
  io_hash_table = λ i. [];
  ios_in_flight = 0;
}

fresh-Sized : Sized 2 fresh_graphs
unfolding alloc_line_data
fresh-Sized = record {
  tput_writes = omega arith;
  tput_reads = omega arith;
  iop = omega arith;
  queue_depth = omega arith;
  latency = omega arith;
}

abbrev graphs_of : Option Graphs → Graphs
graphs_of none = fresh_graphs
graphs_of (some g) = g

abbrev before_done : Graphs
before_done = graphs_of (read_trace_events 0 events 2 (sent ∷ other ∷ []) fresh_graphs)

before_done_lem : read_trace_events 0 events 2 (sent ∷ other ∷ []) fresh_graphs ≡ some before_done
unfolding read_trace_events alloc_line_data
before_done_lem = refl

abbrev after_done : Graphs
after_done = graphs_of (read_trace_events 0 events 2 (done ∷ []) before_done)

after_done_lem : read_trace_events 0 events 2 (done ∷ []) before_done ≡ some after_done
unfolding read_trace_events alloc_line_data
after_done_lem = refl

fresh-IsValid : IsValid fresh_graphs.io_hash_table
fresh-IsValid = record { placed = λ i. tt; unique = λ i. tt }

alloc-Sums : Sums (λ j. 0) (alloc_line_data 2)
unfolding sum_at alloc_line_data
alloc-Sums = record { peak = record { above = empty; met = inl refl }; sums_at = zeros }
  where
    zeros : (j : ℕ) → sum_at (alloc_line_data 2) j ≡ 0
    zeros zero = refl
    zeros (suc zero) = refl
    zeros (suc (suc zero)) = refl
    zeros (suc (suc (suc j))) = refl

    empty : (j : ℕ) → sum_at (alloc_line_data 2) j ≤ 0
    empty j = omega (arith, zeros j)

abbrev counted : Graphs
counted = graphs_of (read_trace_events 0 events 2 (done ∷ []) fresh_graphs)

counted_lem : read_trace_events 0 events 2 (done ∷ []) fresh_graphs ≡ some counted
unfolding read_trace_events alloc_line_data
counted_lem = refl

reads_small : in_all (reads_of 0 events 2) (done ∷ []) < 2 ^ 64
unfolding in_all until read_bytes seconds is_left_out datadir
reads_small = omega arith

writes_small : in_all (writes_of 0 events 2) (done ∷ []) < 2 ^ 64
unfolding in_all until write_bytes seconds is_left_out datadir
writes_small = omega arith

operations_small : in_all (operations_of 0 events 2) (done ∷ []) < 2 ^ 64
unfolding in_all until operations seconds is_left_out
operations_small = omega arith

fresh-AllSums : AllSums (λ j. 0) (λ j. 0) (λ j. 0) fresh_graphs
fresh-AllSums = record { tput_reads = alloc-Sums; tput_writes = alloc-Sums; iop = alloc-Sums }

read_trace_events-Fits_example :
    Fits 2 (read_trace_events 0 events 2 (sent ∷ other ∷ done ∷ []) fresh_graphs)
read_trace_events-Fits_example =
    read_trace_events-Fits 2 0 events (sent ∷ other ∷ done ∷ []) fresh_graphs fresh-Sized

read_trace_events-AllSums_example :
    AllSums
      (λ j. in_second (reads_of 0 events 2) j (done ∷ []))
      (λ j. in_second (writes_of 0 events 2) j (done ∷ []))
      (λ j. in_second (operations_of 0 events 2) j (done ∷ []))
      counted
read_trace_events-AllSums_example =
    read_trace_events-AllSums 0 events 2 (done ∷ []) fresh_graphs counted fresh-AllSums reads_small
      writes_small operations_small counted_lem

sent-IsEvent : IsEvent Ta.issue sent
unfolding is_notify_event masked
sent-IsEvent = (refl, refl)

done-IsEvent : IsEvent Ta.complete done
unfolding is_notify_event masked
done-IsEvent = (refl, refl)

done-early : second_of done ≤ 2
unfolding second_of
done-early = omega arith

read_trace_events-Completed_example : Completed 0 events refl done 1000000 before_done after_done
read_trace_events-Completed_example =
    read_trace_events-Completed 0 events refl 2 sent done (other ∷ []) fresh_graphs before_done
      after_done fresh-IsValid sent-IsEvent done-IsEvent refl refl (omega arith) done-early
      (refl, tt) before_done_lem after_done_lem

-- Records of two devices
abbrev first_device : BlkIoTrace
first_device = trace_of 1 1000000 64 (read_fs (Ta.queue + Tc.act Tc.queue)) 0

abbrev second_device : BlkIoTrace
second_device = record first_device { device = 8388624; sector = 8 }

abbrev devices_of : Option (List DevInfo) → List DevInfo
devices_of none = []
devices_of (some d) = d

abbrev two_devices : List BlkIoTrace
two_devices = first_device ∷ second_device ∷ []

abbrev found_devices : List DevInfo
found_devices = devices_of (scan_devices two_devices [])

found_devices_lem : scan_devices two_devices [] ≡ some found_devices
unfolding scan_devices
found_devices_lem = refl

found-small : extent found_devices < 2 ^ 64
unfolding extent scan_devices
found-small = omega arith

ranges : All IsRange two_devices
unfolding is_notify_event
ranges = ((refl, omega arith), ((refl, omega arith), tt))

map_devices-apart_example :
    (devices : List DevInfo) × (p : ℕ) × (q : ℕ) × (map_devices two_devices [] ≡ some devices)
    × (map_io devices first_device ≡ some p)
    × (map_io devices second_device ≡ some q)
    × ((p + 4096 ≤ q) ⊎ (q + 4096 ≤ p))
map_devices-apart_example =
    map_devices-apart two_devices found_devices ranges found_devices_lem found-small 0 1
      first_device second_device refl refl (omega arith)
