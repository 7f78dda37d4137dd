-- ===== src/Iowatcher/Lines/Lifecycle.antt =====
-- A dispatch and the completion of its request, in the loop over the records of a trace.
use blktrace.Common.{
  ℕ, ◌-◌, ◌≤◌, ◌≡◌, refl, ap, sym, ◌∙◌, subst, true, false, ◌&&◌, none, some, List, [], ◌∷◌, ◌==◌,
  ltb, leb, add64, All, get_elem?, get_elem?-set_self, get_elem?_lt, Bool-cases, Option-cases, inl,
  inr, OnSome, OnSome-bind, OnSome-weaken, arith, ◌>>=◌,
}
use mathlib.Core.Option
use blktrace.Trace.Record.{BlkIoTrace}
use blktrace.Trace.Ta
use blktrace.Iowatcher.{Found, is_notify_event, masked}
use blktrace.Trace.Header.{seconds}
use blktrace.Iowatcher.Pending.{io_hash_table_search, hash_completed_io}
use blktrace.Iowatcher.Pending.Laws.{IsValid}
use blktrace.Iowatcher.Pending.Operations.{
  del_pio-Changed, search-own, hash_dispatched_io-Dispatched,
}
use blktrace.Iowatcher.Lines.{
  GraphLinePair, GraphLineData, Graphs, add_at, second_of, add_tput, add_iop, add_issued,
  add_pending_io, add_sample, avg64, add_latency, add_completed_io, add_record, read_trace_events,
}
use blktrace.Iowatcher.Lines.Peaks.{sum_at}
use blktrace.Iowatcher.Lines.Latency.{InFlight, Same, add_tput-Same, add_iop-Same, add_record-Flies}

-- A record of an event that is not a notify trace
abbrev pub IsEvent : ℕ → BlkIoTrace → Type 0
IsEvent event io = (is_notify_event io ≡ false) × (masked io ≡ event)

sum_at-add_sample :
    (i n : ℕ) (top : GraphLinePair → ℕ) (gld gld' : GraphLineData)
    → add_at i (add_sample n) top gld ≡ some gld'
    → sum_at gld' i ≡ add64 (sum_at gld i) n
unfolding add_at add_sample sum_at
sum_at-add_sample i n top gld gld' e = elim (Option-cases (get_elem? gld.pairs i)) [
  | inl f ↦ let bad : none ≡ some gld' = rw (f, add_at) at e in cc
  | inr (p, f) ↦
      let d = Option.some-injective _ _ (rw (f, add_at) at e) in
      rw
        (
          sym d,
          sum_at,
          f,
          get_elem?-set_self gld.pairs i (add_sample n p) (get_elem?_lt gld.pairs i f),
        )
        refl
]

module _ (nan64 : ℕ) (found : Found) (completions : found.completion ≡ true) where
  add_issued-InFlight :
      (io : BlkIoTrace) (g : Graphs)
      → IsValid g.io_hash_table
      → OnSome
          (λ (g' : Graphs). InFlight io.sector io.device io.time g'.io_hash_table)
          (add_issued nan64 found io g)
  unfolding add_issued
  add_issued-InFlight io g v =
      let (pio, table, e, di) = hash_dispatched_io-Dispatched g.io_hash_table io v in
      elim (Option-cases (
        add_at (second_of io) (add_sample (add64 g.ios_in_flight 1)) (avg64 nan64) g.queue_depth)) [
          | inl h ↦ rw (add_issued, e, h) tt
          | inr (gld, h) ↦
              rw (add_issued, e, h, completions)
                (record {
                  valid = di.change.valid;
                  pio = pio;
                  found = ground (arith, di.change.entry io.sector io.device);
                  since = di.time;
                })
        ]

  pending_issue :
      (io : BlkIoTrace) (g : Graphs)
      → IsEvent Ta.issue io
      → add_pending_io nan64 found io g ≡ add_issued nan64 found io g
  unfolding add_pending_io
  pending_issue io g ev = rw (add_pending_io, ev.0, ev.1) refl

  completed_issue :
      (io : BlkIoTrace) (g : Graphs) → IsEvent Ta.issue io → add_completed_io nan64 io g ≡ some g
  unfolding add_completed_io
  completed_issue io g ev = rw (add_completed_io, ev.0, ev.1) refl

  pending_complete :
      (io : BlkIoTrace) (g : Graphs)
      → IsEvent Ta.complete io
      → add_pending_io nan64 found io g ≡ some g
  unfolding add_pending_io
  pending_complete io g ev = rw (add_pending_io, ev.0, ev.1) refl

  abbrev Flies : BlkIoTrace → Graphs → Type 0
  Flies io g = InFlight io.sector io.device io.time g.io_hash_table

  add_record-InFlight :
      (io : BlkIoTrace) (g : Graphs)
      → IsEvent Ta.issue io
      → IsValid g.io_hash_table
      → OnSome (Flies io) (add_record nan64 found io g)
  unfolding add_record
  add_record-InFlight io g ev v =
      OnSome-bind (Same g) (Flies io) (add_tput found io g) _ (add_tput-Same found io g) λ g1 a.
        OnSome-bind (Same g1) (Flies io) (add_iop found io g1) _ (add_iop-Same found io g1) λ g2 b.
          OnSome-bind (Flies io) (Flies io) (add_pending_io nan64 found io g2) _
            (subst (OnSome (Flies io)) (sym (pending_issue io g2 ev))
              (add_issued-InFlight io g2 (subst IsValid (sym (b.0 ∙ a.0)) v)))
            λ g3 c. subst (OnSome (Flies io)) (sym (completed_issue io g3 ev)) c

  -- The outcome of the completion of a request that is in flight since t
  pub record Completed (io : BlkIoTrace) (t : ℕ) (g g' : Graphs) : Type 0 where
    pub valid : IsValid g'.io_hash_table
    pub gone : io_hash_table_search g'.io_hash_table io.sector io.device ≡ none
    pub latency :
        sum_at g'.latency (second_of io) ≡ add64 (sum_at g.latency (second_of io)) (io.time - t)

  add_completed_io-Completed :
      (io : BlkIoTrace) (t : ℕ) (g : Graphs)
      → IsEvent Ta.complete io
      → t ≤ io.time
      → InFlight io.sector io.device t g.io_hash_table
      → OnSome (Completed io t g) (add_completed_io nan64 io g)
  unfolding add_completed_io hash_completed_io add_latency
  add_completed_io-Completed io t g ev h f =
      let own = search-own g.io_hash_table io.sector io.device f.found in
      let del = del_pio-Changed g.io_hash_table f.pio f.valid in
      let late : leb f.pio.dispatch_time io.time ≡ true = ground (arith, h, f.since) in
      elim (Option-cases (
        add_at (second_of io) (add_sample (io.time - f.pio.dispatch_time)) (avg64 nan64)
          g.latency)) [
            | inl e ↦ rw (add_completed_io, ev.0, ev.1, f.found, add_latency, late, e) tt
            | inr (gld, e) ↦
                rw (add_completed_io, ev.0, ev.1, f.found, add_latency, late, e)
                  (record {
                    valid = del.valid;
                    gone = ground (arith, del.entry io.sector io.device, own);
                    latency =
                        sum_at-add_sample _ _ (avg64 nan64) g.latency gld e
                        ∙ ap (λ k. add64 (sum_at g.latency (second_of io)) (io.time - k)) f.since;
                  })
          ]

  add_record-Completed :
      (io : BlkIoTrace) (t : ℕ) (g : Graphs)
      → IsEvent Ta.complete io
      → t ≤ io.time
      → InFlight io.sector io.device t g.io_hash_table
      → OnSome (Completed io t g) (add_record nan64 found io g)
  unfolding add_record
  add_record-Completed io t g ev h f =
      OnSome-bind (Same g) (Completed io t g) (add_tput found io g) _ (add_tput-Same found io g)
        λ g1 a.
          OnSome-bind (Same g1) (Completed io t g) (add_iop found io g1) _
            (add_iop-Same found io g1)
            λ g2 b.
              subst (λ o. OnSome (Completed io t g) (o >>= add_completed_io nan64 io))
                (sym (pending_complete io g2 ev))
                (OnSome-weaken (Completed io t g2) (Completed io t g)
                  (λ g3 c. record {
                    valid = c.valid;
                    gone = c.gone;
                    latency =
                        c.latency
                        ∙ ap (λ k. add64 (sum_at k (second_of io)) (io.time - t)) (b.1 ∙ a.1);
                  })
                  (add_completed_io nan64 io g2)
                  (add_completed_io-Completed io t g2 ev h
                    (subst (InFlight io.sector io.device t) (sym (b.0 ∙ a.0)) f)))

  -- Records of other requests leave the request in flight.
  abbrev pub IsElsewhere : BlkIoTrace → BlkIoTrace → Type 0
  IsElsewhere d io = (d.sector == io.sector) && (d.device == io.device) ≡ false

  module _ (n : ℕ) where
    read-InFlight :
        (d : BlkIoTrace) (ios : List BlkIoTrace) (g : Graphs)
        → All (IsElsewhere d) ios
        → Flies d g
        → OnSome (Flies d) (read_trace_events nan64 found n ios g)
    unfolding read_trace_events
    read-InFlight d [] g a f = f
    read-InFlight d (io ∷ ios) g a f = elim (Bool-cases (ltb n (seconds io.time))) [
      | inl h ↦ rw (read_trace_events, h) (read-InFlight d ios g a.1 f)
      | inr h ↦ elim (Option-cases (add_record nan64 found io g)) [
        | inl e ↦ rw (read_trace_events, h, e) tt
        | inr (k, e) ↦
            let one =
              subst (OnSome (Flies d)) e
                (add_record-Flies d.sector d.device d.time nan64 found io a.0 g f) in
            rw (read_trace_events, h, e) (read-InFlight d ios k a.1 one)
      ]
    ]

    read-dispatched :
        (d : BlkIoTrace) (ios : List BlkIoTrace) (g : Graphs)
        → IsEvent Ta.issue d
        → second_of d ≤ n
        → IsValid g.io_hash_table
        → All (IsElsewhere d) ios
        → OnSome (Flies d) (read_trace_events nan64 found n (d ∷ ios) g)
    unfolding read_trace_events second_of
    read-dispatched d ios g ev h v a =
        let early : ltb n (seconds d.time) ≡ false = ground (arith, h) in
        elim (Option-cases (add_record nan64 found d g)) [
          | inl e ↦ rw (read_trace_events, early, e) tt
          | inr (k, e) ↦
              let one = subst (OnSome (Flies d)) e (add_record-InFlight d g ev v) in
              rw (read_trace_events, early, e) (read-InFlight d ios k a one)
        ]

    -- Completions are among the events of the trace, and the table of requests is valid. A request is
    -- dispatched by d; records of other requests follow, whatever they are; and then c completes it, at
    -- the time of the dispatch or later and up to max_seconds. No index is out of range. Then the
    -- second of c has the time from d to c added to its sum of latencies, modulo 2 ^ 64, the request is
    -- in flight no more, and the table is valid.
    pub read_trace_events-Completed :
        (d c : BlkIoTrace) (ios : List BlkIoTrace) (g g1 g2 : Graphs)
        → IsValid g.io_hash_table
        → IsEvent Ta.issue d
        → IsEvent Ta.complete c
        → c.sector ≡ d.sector
        → c.device ≡ d.device
        → d.time ≤ c.time
        → second_of c ≤ n
        → All (IsElsewhere d) ios
        → read_trace_events nan64 found n (d ∷ ios) g ≡ some g1
        → read_trace_events nan64 found n (c ∷ []) g1 ≡ some g2
        → Completed c d.time g1 g2
    unfolding read_trace_events second_of
    read_trace_events-Completed d c ios g g1 g2 v ed ec s e t h a r1 r2 =
        let flies =
          subst (OnSome (Flies d)) r1 (read-dispatched d ios g ed (ground (arith, t, h)) v a) in
        let here : InFlight c.sector c.device d.time g1.io_hash_table =
          subst (λ k. InFlight k c.device d.time g1.io_hash_table) (sym s)
            (subst (λ k. InFlight d.sector k d.time g1.io_hash_table) (sym e) flies) in
        let early : ltb n (seconds c.time) ≡ false = ground (arith, h) in
        elim (Option-cases (add_record nan64 found c g1)) [
          | inl f ↦ let bad : none ≡ some g2 = rw (read_trace_events, early, f) at r2 in cc
          | inr (k, f) ↦
              let same : some k ≡ some g2 = rw (read_trace_events, early, f) at r2 in
              subst (Completed c d.time g1) (Option.some-injective _ _ same) (
                subst (OnSome (Completed c d.time g1)) f
                  (add_record-Completed c d.time g1 ec t here))
        ]
