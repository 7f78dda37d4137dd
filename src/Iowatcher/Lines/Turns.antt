-- ===== src/Iowatcher/Lines/Turns.antt =====
-- The graphs of the throughput and of the operations per second, against sums over the records.
use blktrace.Common.{
  ℕ, ◌≡◌, refl, sym, ◌∙◌, subst, some, if◌then◌else◌, has_bits, inl, inr, OnSome, OnSome-bind,
  OnSome-weaken, Option,
}
use blktrace.Trace.Record.{BlkIoTrace}
use blktrace.Trace.Tc
use blktrace.Iowatcher.{Found, datadir}
use blktrace.Iowatcher.Lines.{
  GraphLineData, Graphs, add_at, second_of, is_left_out, add_one, sum_of, add_tput, add_iop,
  add_pending_io, add_completed_io, add_record,
}
use blktrace.Iowatcher.Lines.Ways.{
  TputWay, no_tput, read_tput, write_tput, read_fault, write_fault, add_tput-TputWay, IopWay,
  no_iop, one_iop, iop_fault, add_iop-IopWay, PendingWay, no_request, queued, requeued, issued,
  issue_fault, add_pending_io-PendingWay, CompletedWay, no_completion, completed, latency_fault,
  add_completed_io-CompletedWay,
}
use blktrace.Iowatcher.Lines.Peaks.{Added}

-- What a record adds to the graphs of the reads, of the writes and of the operations
unfoldable pub read_bytes : Found → BlkIoTrace → ℕ
read_bytes found io =
    if is_left_out found io then 0 else if has_bits (datadir io.action) Tc.read then io.bytes else 0

unfoldable pub write_bytes : Found → BlkIoTrace → ℕ
write_bytes found io =
    if is_left_out found io then 0 else if has_bits (datadir io.action) Tc.read then 0 else io.bytes

unfoldable pub operations : Found → BlkIoTrace → ℕ
operations found io = if is_left_out found io then 0 else 1

-- The three graphs are as they were.
record SameSums (g g' : Graphs) : Type 0 where
  reads : g'.tput_reads ≡ g.tput_reads
  writes : g'.tput_writes ≡ g.tput_writes
  iop : g'.iop ≡ g.iop

module _ (nan64 : ℕ) (found : Found) (io : BlkIoTrace) where
  -- What one turn of the loop adds
  pub record Turn (g g' : Graphs) : Type 0 where
    pub reads : Added (second_of io) (read_bytes found io) g.tput_reads g'.tput_reads
    pub writes : Added (second_of io) (write_bytes found io) g.tput_writes g'.tput_writes
    pub iop : Added (second_of io) (operations found io) g.iop g'.iop

  abbrev TputTurn : Graphs → Graphs → Type 0
  TputTurn g g' =
      Added (second_of io) (read_bytes found io) g.tput_reads g'.tput_reads
      × Added (second_of io) (write_bytes found io) g.tput_writes g'.tput_writes
      × (g'.iop ≡ g.iop)

  abbrev IopTurn : Graphs → Graphs → Type 0
  IopTurn g g' =
      (g'.tput_reads ≡ g.tput_reads)
      × (g'.tput_writes ≡ g.tput_writes)
      × Added (second_of io) (operations found io) g.iop g'.iop

  nothing : (w : ℕ) (gld : GraphLineData) → w ≡ 0 → Added (second_of io) w gld gld
  nothing w gld e = inl (e, refl)

  entered :
      (w n : ℕ) {gld gld' : GraphLineData}
      → w ≡ n
      → add_at (second_of io) (add_one n) sum_of gld ≡ some gld'
      → Added (second_of io) w gld gld'
  entered w n {gld} {gld'} e f =
      inr (subst (λ k. add_at (second_of io) (add_one k) sum_of gld ≡ some gld') (sym e) f)

  TputWay-Turn : {g : Graphs} {o : Option Graphs} → TputWay found io g o → OnSome (TputTurn g) o
  unfolding read_bytes write_bytes
  TputWay-Turn {g} (no_tput k) = (
    nothing _ g.tput_reads (rw (read_bytes, k) refl),
    nothing _ g.tput_writes (rw (write_bytes, k) refl),
    refl,
  )
  TputWay-Turn {g} (read_tput k r e) = (
    entered _ io.bytes (rw (read_bytes, k, r) refl) e,
    nothing _ g.tput_writes (rw (write_bytes, k, r) refl),
    refl,
  )
  TputWay-Turn {g} (write_tput k r e) = (
    nothing _ g.tput_reads (rw (read_bytes, k, r) refl),
    entered _ io.bytes (rw (write_bytes, k, r) refl) e,
    refl,
  )
  TputWay-Turn (read_fault _) = tt
  TputWay-Turn (write_fault _) = tt

  IopWay-Turn : {g : Graphs} {o : Option Graphs} → IopWay found io g o → OnSome (IopTurn g) o
  unfolding operations
  IopWay-Turn {g} (no_iop k) = (refl, refl, nothing _ g.iop (rw (operations, k) refl))
  IopWay-Turn (one_iop k e) = (refl, refl, entered _ 1 (rw (operations, k) refl) e)
  IopWay-Turn (iop_fault _) = tt

  kept :
      {g g' : Graphs}
      → g'.tput_reads ≡ g.tput_reads
      → g'.tput_writes ≡ g.tput_writes
      → g'.iop ≡ g.iop
      → SameSums g g'
  kept a b c = record { reads = a; writes = b; iop = c }

  PendingWay-SameSums :
      {g : Graphs} {o : Option Graphs} → PendingWay nan64 found io g o → OnSome (SameSums g) o
  PendingWay-SameSums no_request = kept refl refl refl
  PendingWay-SameSums (queued _) = kept refl refl refl
  PendingWay-SameSums requeued = kept refl refl refl
  PendingWay-SameSums (issued _ _) = kept refl refl refl
  PendingWay-SameSums (issue_fault _) = tt

  CompletedWay-SameSums :
      {g : Graphs} {o : Option Graphs} → CompletedWay nan64 found io g o → OnSome (SameSums g) o
  CompletedWay-SameSums no_completion = kept refl refl refl
  CompletedWay-SameSums (completed _ _) = kept refl refl refl
  CompletedWay-SameSums (latency_fault _ _) = tt

  change :
      {n : ℕ} {x y z : GraphLineData}
      → z ≡ y
      → Added (second_of io) n x y
      → Added (second_of io) n x z
  change {n} {x} e a = subst (λ k. Added (second_of io) n x k) (sym e) a

  from :
      {n : ℕ} {x y z : GraphLineData}
      → y ≡ x
      → Added (second_of io) n y z
      → Added (second_of io) n x z
  from {n} {z} e a = subst (λ k. Added (second_of io) n k z) e a

  pub add_record-Turn : (g : Graphs) → OnSome (Turn g) (add_record nan64 found io g)
  unfolding add_record
  add_record-Turn g =
      OnSome-bind (TputTurn g) (Turn g) (add_tput found io g) _
        (TputWay-Turn (add_tput-TputWay found io g))
        λ g1 a.
          OnSome-bind (IopTurn g1) (Turn g) (add_iop found io g1) _
            (IopWay-Turn (add_iop-IopWay found io g1))
            λ g2 b.
              OnSome-bind (SameSums g2) (Turn g) (add_pending_io nan64 found io g2) _
                (PendingWay-SameSums (add_pending_io-PendingWay nan64 found io g2))
                λ g3 c.
                  OnSome-weaken (SameSums g3) (Turn g)
                    (λ g4 d. record {
                      reads = change (d.reads ∙ c.reads ∙ b.0) a.0;
                      writes = change (d.writes ∙ c.writes ∙ b.1) a.1;
                      iop = from a.2 (change (d.iop ∙ c.iop) b.2);
                    })
                    (add_completed_io nan64 io g3)
                    (CompletedWay-SameSums (add_completed_io-CompletedWay nan64 found io g3))
