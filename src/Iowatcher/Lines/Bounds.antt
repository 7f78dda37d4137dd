-- ===== src/Iowatcher/Lines/Bounds.antt =====
-- The arrays of the line graphs, and the indexes that the loop over the records uses.
use blktrace.Common.{
  ◌∙◌, sym, subst, none, ℕ, zero, suc, ◌≤◌, ◌<◌, ◌≡◌, refl, Option, some, List, [], ◌∷◌,
  if◌then◌else◌, ltb, leb, get_elem?, set, length, length-set, add64, ◌-◌, Bool-cases, inl, inr,
  arith, ◌>>=◌,
}
use blktrace.Trace.Record.{BlkIoTrace}
use blktrace.Iowatcher.{Found}
use blktrace.Trace.Header.{seconds}
use blktrace.Iowatcher.Lines.{
  GraphLinePair, GraphLineData, Graphs, add_at, second_of, add_one, sum_of, add_tput, add_iop,
  add_pending_io, add_sample, avg64, add_latency, add_record, read_trace_events,
}
use mathlib.Core.Option
use blktrace.Iowatcher.Lines.Ways.{
  TputWay, no_tput, read_tput, write_tput, read_fault, write_fault, add_tput-TputWay, IopWay,
  no_iop, one_iop, iop_fault, add_iop-IopWay, PendingWay, no_request, queued, requeued, issued,
  issue_fault, add_pending_io-PendingWay, CompletedWay, no_completion, completed, latency_fault,
  add_completed_io-CompletedWay,
}

-- The arrays have entries for the seconds up to n.
pub record Sized (n : ℕ) (g : Graphs) : Type 0 where
  pub tput_writes : n < length g.tput_writes.pairs
  pub tput_reads : n < length g.tput_reads.pairs
  pub iop : n < length g.iop.pairs
  pub queue_depth : n < length g.queue_depth.pairs
  pub latency : n < length g.latency.pairs

get_elem?-some :
    {A : Type 0} (xs : List A) (i : ℕ) → i < length xs → (x : A) × (get_elem? xs i ≡ some x)
get_elem?-some [] i h = absurd (omega arith)
get_elem?-some (x ∷ xs) zero h = (x, refl)
get_elem?-some (x ∷ xs) (suc i) h = get_elem?-some xs i (omega arith)

add_at-some :
    (n i : ℕ) (f : GraphLinePair → GraphLinePair) (top : GraphLinePair → ℕ) (gld : GraphLineData)
    → i ≤ n
    → n < length gld.pairs
    → (gld' : GraphLineData) × (add_at i f top gld ≡ some gld') × (n < length gld'.pairs)
unfolding add_at
add_at-some n i f top gld h k =
    let (p, e) = get_elem?-some gld.pairs i (omega (arith, h, k)) in
    let gld' : GraphLineData = record {
      max = if ltb gld.max (top (f p)) then top (f p) else gld.max;
      pairs = set gld.pairs i (f p);
    } in
    (gld', rw (add_at, e) refl, omega (arith, k, length-set gld.pairs i (f p)))

-- An operation succeeds, and leaves arrays as long.
abbrev pub Fits : ℕ → Option Graphs → Type 0
Fits n o = (g : Graphs) × (o ≡ some g) × Sized n g

-- A change to an entry succeeds, and leaves an array with entries up to n.
abbrev Grown : ℕ → Option GraphLineData → Type 0
Grown n o = (gld : GraphLineData) × (o ≡ some gld) × (n < length gld.pairs)

grown :
    {n : ℕ} {o : Option GraphLineData} {gld : GraphLineData}
    → Grown n o
    → o ≡ some gld
    → n < length gld.pairs
grown {n} (gld', e, l) f =
    subst (λ (k : GraphLineData). n < length k.pairs) (Option.some-injective _ _ (sym e ∙ f)) l

never : {n : ℕ} {o : Option GraphLineData} → Grown n o → o ≡ none → Fits n none
never (gld, e, l) f = let bad : none ≡ some gld = sym f ∙ e in cc

module _ (n nan64 : ℕ) (found : Found) (io : BlkIoTrace) (g : Graphs) (h : second_of io ≤ n)
    (s : Sized n g) where
  -- One entry of the second of the record
  entry_of :
      (f : GraphLinePair → GraphLinePair) (top : GraphLinePair → ℕ) (gld : GraphLineData)
      → n < length gld.pairs
      → Grown n (add_at (second_of io) f top gld)
  entry_of f top gld l = add_at-some n (second_of io) f top gld h l

  sized :
      (g' : Graphs)
      → n < length g'.tput_writes.pairs
      → n < length g'.tput_reads.pairs
      → n < length g'.iop.pairs
      → n < length g'.queue_depth.pairs
      → n < length g'.latency.pairs
      → Fits n (some g')
  sized g' w r i q l =
      (g', refl, record { tput_writes = w; tput_reads = r; iop = i; queue_depth = q; latency = l })

  TputWay-Fits : {o : Option Graphs} → TputWay found io g o → Fits n o
  TputWay-Fits (no_tput _) = (g, refl, s)
  TputWay-Fits (read_tput _ _ e) =
      sized _ s.tput_writes (grown (entry_of (add_one io.bytes) sum_of g.tput_reads s.tput_reads) e)
        s.iop s.queue_depth s.latency
  TputWay-Fits (write_tput _ _ e) =
      sized _ (grown (entry_of (add_one io.bytes) sum_of g.tput_writes s.tput_writes) e)
        s.tput_reads s.iop s.queue_depth s.latency
  TputWay-Fits (read_fault e) =
      never (entry_of (add_one io.bytes) sum_of g.tput_reads s.tput_reads) e
  TputWay-Fits (write_fault e) =
      never (entry_of (add_one io.bytes) sum_of g.tput_writes s.tput_writes) e

  IopWay-Fits : {o : Option Graphs} → IopWay found io g o → Fits n o
  IopWay-Fits (no_iop _) = (g, refl, s)
  IopWay-Fits (one_iop _ e) =
      sized _ s.tput_writes s.tput_reads (grown (entry_of (add_one 1) sum_of g.iop s.iop) e)
        s.queue_depth s.latency
  IopWay-Fits (iop_fault e) = never (entry_of (add_one 1) sum_of g.iop s.iop) e

  depth_of :
      Grown n
        (add_at (second_of io) (add_sample (add64 g.ios_in_flight 1)) (avg64 nan64) g.queue_depth)
  depth_of =
      entry_of (add_sample (add64 g.ios_in_flight 1)) (avg64 nan64) g.queue_depth s.queue_depth

  PendingWay-Fits : {o : Option Graphs} → PendingWay nan64 found io g o → Fits n o
  PendingWay-Fits no_request = (g, refl, s)
  PendingWay-Fits (queued _) = sized _ s.tput_writes s.tput_reads s.iop s.queue_depth s.latency
  PendingWay-Fits requeued = sized _ s.tput_writes s.tput_reads s.iop s.queue_depth s.latency
  PendingWay-Fits (issued _ e) =
      sized _ s.tput_writes s.tput_reads s.iop (grown depth_of e) s.latency
  PendingWay-Fits (issue_fault e) = never depth_of e

  latency_of : (t : ℕ) → Grown n (add_latency nan64 io t g.latency)
  unfolding add_latency
  latency_of t = elim (Bool-cases (leb t io.time)) [
    | inl k ↦
        rw (add_latency, k) (entry_of (add_sample (io.time - t)) (avg64 nan64) g.latency s.latency)
    | inr k ↦ rw (add_latency, k) (entry_of (λ p. p) (avg64 nan64) g.latency s.latency)
  ]

  CompletedWay-Fits : {o : Option Graphs} → CompletedWay nan64 found io g o → Fits n o
  CompletedWay-Fits no_completion = (g, refl, s)
  CompletedWay-Fits (completed {pio} _ e) =
      sized _ s.tput_writes s.tput_reads s.iop s.queue_depth
        (grown (latency_of pio.dispatch_time) e)
  CompletedWay-Fits (latency_fault t e) = never (latency_of t) e

Fits-bind :
    (n : ℕ) (o : Option Graphs) (f : Graphs → Option Graphs)
    → Fits n o
    → ((g : Graphs) → Sized n g → Fits n (f g))
    → Fits n (o >>= f)
Fits-bind n o f (g, e, s) k = subst (λ p. Fits n (p >>= f)) (sym e) (k g s)

module _ (n nan64 : ℕ) (found : Found) where
  add_record-Fits :
      (io : BlkIoTrace) (g : Graphs)
      → second_of io ≤ n
      → Sized n g
      → Fits n (add_record nan64 found io g)
  unfolding add_record
  add_record-Fits io g h s =
      Fits-bind n (add_tput found io g) _
        (TputWay-Fits n nan64 found io g h s (add_tput-TputWay found io g))
        λ g1 s1.
          Fits-bind n (add_iop found io g1) _
            (IopWay-Fits n nan64 found io g1 h s1 (add_iop-IopWay found io g1))
            λ g2 s2.
              Fits-bind n (add_pending_io nan64 found io g2) _
                (PendingWay-Fits n nan64 found io g2 h s2
                  (add_pending_io-PendingWay nan64 found io g2))
                λ g3 s3.
                  CompletedWay-Fits n nan64 found io g3 h s3
                    (add_completed_io-CompletedWay nan64 found io g3)

  -- The arrays have an entry for each second up to max_seconds. Then the loop over the records,
  -- whatever they are, never uses an index out of the range of an array, and the arrays keep those
  -- entries.
  pub read_trace_events-Fits :
      (ios : List BlkIoTrace) (g : Graphs)
      → Sized n g
      → Fits n (read_trace_events nan64 found n ios g)
  unfolding read_trace_events second_of
  read_trace_events-Fits [] g s = (g, refl, s)
  read_trace_events-Fits (io ∷ ios) g s = elim (Bool-cases (ltb n (seconds io.time))) [
    | inl h ↦ rw (read_trace_events, h) (read_trace_events-Fits ios g s)
    | inr h ↦
        let (g', e, s') = add_record-Fits io g (ground (arith, h)) s in
        rw (read_trace_events, h, e) (read_trace_events-Fits ios g' s')
  ]
