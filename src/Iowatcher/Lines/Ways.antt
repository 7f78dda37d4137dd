-- ===== src/Iowatcher/Lines/Ways.antt =====
-- The ways through the functions that add a record to the line graphs.
use blktrace.Common.{
  ℕ, ◌≡◌, true, false, not, ◌||◌, Option, none, some, ◌==◌, if◌then◌else◌, has_bits, add64,
  Bool-cases, Option-cases, inl, inr,
}
use blktrace.Trace.Record.{BlkIoTrace}
use blktrace.Trace.Tc
use blktrace.Trace.Ta
use blktrace.Iowatcher.{Found, is_notify_event, masked, datadir}
use blktrace.Iowatcher.Pending.{
  PendingIo, Table, hash_queued_io, hash_dispatched_io, hash_completed_io, del_pio,
}
use blktrace.Iowatcher.Lines.{
  GraphLineData, Graphs, add_at, second_of, is_left_out, add_one, sum_of, add_tput, add_iop,
  add_issued, add_pending_io, add_sample, avg64, add_latency, add_completed_io, one_less,
}

module _ (found : Found) (io : BlkIoTrace) (g : Graphs) where
  pub data TputWay : Option Graphs → Type 0 where
    no_tput : is_left_out found io ≡ true → TputWay (some g)
    read_tput :
        {gld : GraphLineData}
        → is_left_out found io ≡ false
        → has_bits (datadir io.action) Tc.read ≡ true
        → add_at (second_of io) (add_one io.bytes) sum_of g.tput_reads ≡ some gld
        → TputWay (some (record g { tput_reads = gld }))
    write_tput :
        {gld : GraphLineData}
        → is_left_out found io ≡ false
        → has_bits (datadir io.action) Tc.read ≡ false
        → add_at (second_of io) (add_one io.bytes) sum_of g.tput_writes ≡ some gld
        → TputWay (some (record g { tput_writes = gld }))
    read_fault : add_at (second_of io) (add_one io.bytes) sum_of g.tput_reads ≡ none → TputWay none
    write_fault :
        add_at (second_of io) (add_one io.bytes) sum_of g.tput_writes ≡ none → TputWay none

  pub add_tput-TputWay : TputWay (add_tput found io g)
  unfolding add_tput
  add_tput-TputWay = elim (Bool-cases (is_left_out found io)) [
    | inl k ↦ rw (add_tput, k) (no_tput k)
    | inr k ↦ elim (Bool-cases (has_bits (datadir io.action) Tc.read)) [
      | inl r ↦ elim (Option-cases (add_at (second_of io) (add_one io.bytes) sum_of g.tput_reads)) [
        | inl e ↦ rw (add_tput, k, r, e) (read_fault e)
        | inr (gld, e) ↦ rw (add_tput, k, r, e) (read_tput k r e)
      ]
      | inr r ↦
          elim (Option-cases (add_at (second_of io) (add_one io.bytes) sum_of g.tput_writes)) [
            | inl e ↦ rw (add_tput, k, r, e) (write_fault e)
            | inr (gld, e) ↦ rw (add_tput, k, r, e) (write_tput k r e)
          ]
    ]
  ]

  pub data IopWay : Option Graphs → Type 0 where
    no_iop : is_left_out found io ≡ true → IopWay (some g)
    one_iop :
        {gld : GraphLineData}
        → is_left_out found io ≡ false
        → add_at (second_of io) (add_one 1) sum_of g.iop ≡ some gld
        → IopWay (some (record g { iop = gld }))
    iop_fault : add_at (second_of io) (add_one 1) sum_of g.iop ≡ none → IopWay none

  pub add_iop-IopWay : IopWay (add_iop found io g)
  unfolding add_iop
  add_iop-IopWay = elim (Bool-cases (is_left_out found io)) [
    | inl k ↦ rw (add_iop, k) (no_iop k)
    | inr k ↦ elim (Option-cases (add_at (second_of io) (add_one 1) sum_of g.iop)) [
      | inl e ↦ rw (add_iop, k, e) (iop_fault e)
      | inr (gld, e) ↦ rw (add_iop, k, e) (one_iop k e)
    ]
  ]

module _ (nan64 : ℕ) (found : Found) (io : BlkIoTrace) (g : Graphs) where
  pub data PendingWay : Option Graphs → Type 0 where
    no_request : PendingWay (some g)
    queued :
        {pio : PendingIo} {table : Table}
        → hash_queued_io g.io_hash_table io ≡ some (pio, table)
        → PendingWay (some (record g { io_hash_table = table }))
    requeued : PendingWay (some (record g { ios_in_flight = one_less g.ios_in_flight }))
    issued :
        {pio : PendingIo} {table : Table} {gld : GraphLineData}
        → hash_dispatched_io g.io_hash_table io ≡ some (pio, table)
        → add_at (second_of io) (add_sample (add64 g.ios_in_flight 1)) (avg64 nan64) g.queue_depth
          ≡ some gld
        → PendingWay (
            some (record g {
              queue_depth = gld;
              io_hash_table = if found.completion then table else del_pio table pio;
              ios_in_flight = add64 g.ios_in_flight 1;
            }))
    issue_fault :
        add_at (second_of io) (add_sample (add64 g.ios_in_flight 1)) (avg64 nan64) g.queue_depth
          ≡ none
        → PendingWay none

  pub add_issued-PendingWay : PendingWay (add_issued nan64 found io g)
  unfolding add_issued
  add_issued-PendingWay = elim (Option-cases (hash_dispatched_io g.io_hash_table io)) [
    | inl e ↦ rw (add_issued, e) no_request
    | inr ((pio, table), e) ↦
        elim (Option-cases (
          add_at (second_of io) (add_sample (add64 g.ios_in_flight 1)) (avg64 nan64)
            g.queue_depth)) [
              | inl f ↦ rw (add_issued, e, f) (issue_fault f)
              | inr (gld, f) ↦ rw (add_issued, e, f) (issued e f)
            ]
  ]

  pub add_pending_io-PendingWay : PendingWay (add_pending_io nan64 found io g)
  unfolding add_pending_io
  add_pending_io-PendingWay = elim (Bool-cases (is_notify_event io)) [
    | inl k ↦ rw (add_pending_io, k) no_request
    | inr k ↦ elim (Bool-cases (masked io == Ta.queue)) [
      | inl q ↦ elim (Bool-cases (found.issue || found.completion)) [
        | inl c ↦ elim (Option-cases (hash_queued_io g.io_hash_table io)) [
          | inl e ↦ rw (add_pending_io, k, q, c, e) no_request
          | inr ((pio, table), e) ↦ rw (add_pending_io, k, q, c, e) (queued e)
        ]
        | inr c ↦ rw (add_pending_io, k, q, c) no_request
      ]
      | inr q ↦ elim (Bool-cases (masked io == Ta.requeue)) [
        | inl r ↦ rw (add_pending_io, k, q, r) requeued
        | inr r ↦ elim (Bool-cases (masked io == Ta.issue)) [
          | inl i ↦ rw (add_pending_io, k, q, r, i) add_issued-PendingWay
          | inr i ↦ rw (add_pending_io, k, q, r, i) no_request
        ]
      ]
    ]
  ]

  pub data CompletedWay : Option Graphs → Type 0 where
    no_completion : CompletedWay (some g)
    completed :
        {pio : PendingIo} {gld : GraphLineData}
        → hash_completed_io g.io_hash_table io ≡ some pio
        → add_latency nan64 io pio.dispatch_time g.latency ≡ some gld
        → CompletedWay (
            some (record g {
              latency = gld;
              io_hash_table = del_pio g.io_hash_table pio;
              ios_in_flight = one_less g.ios_in_flight;
            }))
    latency_fault :
        (dispatch_time : ℕ)
        → add_latency nan64 io dispatch_time g.latency ≡ none
        → CompletedWay none

  pub add_completed_io-CompletedWay : CompletedWay (add_completed_io nan64 io g)
  unfolding add_completed_io
  add_completed_io-CompletedWay =
      elim (Bool-cases (is_notify_event io || not (masked io == Ta.complete))) [
        | inl k ↦ rw (add_completed_io, k) no_completion
        | inr k ↦ elim (Option-cases (hash_completed_io g.io_hash_table io)) [
          | inl e ↦ rw (add_completed_io, k, e) no_completion
          | inr (pio, e) ↦ elim (Option-cases (add_latency nan64 io pio.dispatch_time g.latency)) [
            | inl f ↦ rw (add_completed_io, k, e, f) (latency_fault pio.dispatch_time f)
            | inr (gld, f) ↦ rw (add_completed_io, k, e, f) (completed e f)
          ]
        ]
      ]
