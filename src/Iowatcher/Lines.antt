-- ===== src/Iowatcher/Lines.antt =====
-- The line graphs of iowatcher/blkparse.c: what a record of the trace adds to them, and the loop of
-- read_trace_events (iowatcher/main.c) over the records of a trace, without check_record and
-- add_io. `none` is an access out of the range of an array.
pub mod Ways
pub mod Bounds
pub mod Peaks
pub mod Turns
pub mod Sums
pub mod Latency
pub mod Lifecycle
use blktrace.Common.{
  ℕ, ◌+◌, ◌-◌, ◌/◌, ◌%◌, ◌^◌, Bool, true, false, not, ◌||◌, Option, none, some, List, [], ◌∷◌,
  if◌then◌else◌, ◌==◌, ltb, leb, add64, has_bits, get_elem?, set, replicate, ◌>>=◌,
}
use blktrace.Trace.Record.{BlkIoTrace}
use blktrace.Trace.Tc
use blktrace.Trace.Ta
use blktrace.Iowatcher.{Found, is_notify_event, masked, tput_event, datadir}
use blktrace.Trace.Header.{seconds}
use blktrace.Iowatcher.Pending.{
  Table, hash_queued_io, hash_dispatched_io, hash_completed_io, del_pio,
}

-- struct graph_line_pair
pub record GraphLinePair : Type 0 where
  pub count : ℕ
  pub sum : ℕ

-- struct graph_line_data: the maximum, and the array data by seconds
pub record GraphLineData : Type 0 where
  pub max : ℕ
  pub pairs : List GraphLinePair

-- alloc_line_data, for memory that is there: calloc clears it.
unfoldable pub alloc_line_data : ℕ → GraphLineData
alloc_line_data stop_seconds = record {
  max = 0;
  pairs = replicate (stop_seconds + 1) (record { count = 0; sum = 0 });
}

-- gld->data[i] changed by f, and then gld->max raised to a value of the changed entry
unfoldable pub add_at :
    ℕ → (GraphLinePair → GraphLinePair) → (GraphLinePair → ℕ) → GraphLineData → Option GraphLineData
add_at i f top gld = elim (get_elem? gld.pairs i) [
  | none ↦ none
  | some p ↦ some (record {
    max = if ltb gld.max (top (f p)) then top (f p) else gld.max;
    pairs = set gld.pairs i (f p);
  })
]

-- `int seconds`, for times below 2 ^ 31 seconds
unfoldable pub second_of : BlkIoTrace → ℕ
unfolding seconds
second_of io = seconds io.time

-- sum += n and count = 1
unfoldable pub add_one : ℕ → GraphLinePair → GraphLinePair
add_one n p = record { count = 1; sum = add64 p.sum n }

-- sum += n and count++
unfoldable pub add_sample : ℕ → GraphLinePair → GraphLinePair
add_sample n p = record { count = add64 p.count 1; sum = add64 p.sum n }

abbrev pub sum_of : GraphLinePair → ℕ
sum_of p = p.sum

-- (u64)avg, where avg is the double sum / count: the quotient, for sums below 2 ^ 53. The
-- conversion of 0 / 0 is left open by C, and the parameter nan64.
unfoldable pub avg64 : ℕ → GraphLinePair → ℕ
avg64 nan64 p = if p.count == 0 then nan64 else p.sum / p.count

-- Do add_tput and add_iop leave the record out?
unfoldable pub is_left_out : Found → BlkIoTrace → Bool
unfolding is_notify_event masked tput_event
is_left_out found io = is_notify_event io || not (masked io == tput_event found)

-- The graphs of struct trace_file, io_hash_table and ios_in_flight
pub record Graphs : Type 0 where
  pub tput_writes : GraphLineData
  pub tput_reads : GraphLineData
  pub iop : GraphLineData
  pub queue_depth : GraphLineData
  pub latency : GraphLineData
  pub io_hash_table : Table
  pub ios_in_flight : ℕ

unfoldable pub add_tput : Found → BlkIoTrace → Graphs → Option Graphs
unfolding is_left_out add_at add_one second_of datadir
add_tput found io g =
    if is_left_out found io
    then some g
    else if has_bits (datadir io.action) Tc.read
    then elim (add_at (second_of io) (add_one io.bytes) sum_of g.tput_reads) [
      | none ↦ none
      | some gld ↦ some (record g { tput_reads = gld })
    ]
    else elim (add_at (second_of io) (add_one io.bytes) sum_of g.tput_writes) [
      | none ↦ none
      | some gld ↦ some (record g { tput_writes = gld })
    ]

unfoldable pub add_iop : Found → BlkIoTrace → Graphs → Option Graphs
unfolding is_left_out add_at add_one second_of
add_iop found io g =
    if is_left_out found io then some g else elim (add_at (second_of io) (add_one 1) sum_of g.iop) [
      | none ↦ none
      | some gld ↦ some (record g { iop = gld })
    ]

-- ios_in_flight--, if it is above 0
unfoldable pub one_less : ℕ → ℕ
one_less n = if ltb 0 n then n - 1 else n

-- The part of add_pending_io for an issue
unfoldable pub add_issued : ℕ → Found → BlkIoTrace → Graphs → Option Graphs
unfolding hash_dispatched_io del_pio add_at add_sample avg64 second_of
add_issued nan64 found io g = elim (hash_dispatched_io g.io_hash_table io) [
  | none ↦ some g
  | some (pio, table) ↦
      let in_flight = add64 g.ios_in_flight 1 in
      let table' = if found.completion then table else del_pio table pio in
      elim (add_at (second_of io) (add_sample in_flight) (avg64 nan64) g.queue_depth) [
        | none ↦ none
        | some gld ↦
            some (record g { queue_depth = gld; io_hash_table = table'; ios_in_flight = in_flight })
      ]
]

unfoldable pub add_pending_io : ℕ → Found → BlkIoTrace → Graphs → Option Graphs
unfolding is_notify_event masked hash_queued_io one_less add_issued
add_pending_io nan64 found io g =
    if is_notify_event io
    then some g
    else if masked io == Ta.queue
    then (if found.issue || found.completion
        then elim (hash_queued_io g.io_hash_table io) [
          | none ↦ some g
          | some (pio, table) ↦ some (record g { io_hash_table = table })
        ]
        else some g)
    else if masked io == Ta.requeue
    then some (record g { ios_in_flight = one_less g.ios_in_flight })
    else if masked io == Ta.issue
    then add_issued nan64 found io g
    else some g

-- add_completed_io, for the request that completes: the latency is entered if the time is not
-- before the dispatch, and the maximum is raised in any case.
unfoldable pub add_latency : ℕ → BlkIoTrace → ℕ → GraphLineData → Option GraphLineData
unfolding add_at add_sample avg64 second_of
add_latency nan64 io dispatch_time gld =
    let entered = add_at (second_of io) (add_sample (io.time - dispatch_time)) (avg64 nan64) gld in
    let not_entered = add_at (second_of io) (λ p. p) (avg64 nan64) gld in
    if leb dispatch_time io.time then entered else not_entered

unfoldable pub add_completed_io : ℕ → BlkIoTrace → Graphs → Option Graphs
unfolding is_notify_event masked hash_completed_io one_less del_pio add_latency
add_completed_io nan64 io g =
    if is_notify_event io || not (masked io == Ta.complete)
    then some g
    else elim (hash_completed_io g.io_hash_table io) [
      | none ↦ some g
      | some pio ↦ elim (add_latency nan64 io pio.dispatch_time g.latency) [
        | none ↦ none
        | some gld ↦ some (record g {
          latency = gld;
          io_hash_table = del_pio g.io_hash_table pio;
          ios_in_flight = one_less g.ios_in_flight;
        })
      ]
    ]

-- One turn of the loop over the records, for a record that is not after max_seconds
unfoldable pub add_record : ℕ → Found → BlkIoTrace → Graphs → Option Graphs
unfolding add_tput add_iop add_pending_io add_completed_io
add_record nan64 found io g = do
  g ← add_tput found io g
  g ← add_iop found io g
  g ← add_pending_io nan64 found io g
  add_completed_io nan64 io g

-- read_trace_events for one trace
unfoldable pub read_trace_events : ℕ → Found → ℕ → List BlkIoTrace → Graphs → Option Graphs
unfolding add_record seconds
read_trace_events nan64 found max_seconds [] g = some g
read_trace_events nan64 found max_seconds (io ∷ ios) g =
    let next = if ltb max_seconds (seconds io.time) then some g else add_record nan64 found io g in
    elim next as (λ o. Option Graphs) [
      | none ↦ none
      | some g' ↦ read_trace_events nan64 found max_seconds ios g'
    ]
