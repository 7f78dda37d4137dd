-- ===== src/Iowatcher/Lines/Sums.antt =====
-- The graphs of the throughput and of the operations per second, against sums over the records.
use blktrace.Common.{
  ℕ, ◌+◌, ◌≤◌, ◌<◌, ◌^◌, ◌≡◌, refl, sym, ◌∙◌, subst, some, List, [], ◌∷◌, if◌then◌else◌, ◌==◌, ltb,
  Bool-cases, Option-cases, inl, inr, OnSome, OnSome-weaken, arith,
}
use blktrace.Trace.Record.{BlkIoTrace}
use blktrace.Iowatcher.{Found}
use blktrace.Trace.Header.{seconds}
use blktrace.Iowatcher.Lines.{GraphLineData, Graphs, second_of, add_record, read_trace_events}
use blktrace.Iowatcher.Lines.Turns.{read_bytes, write_bytes, operations, Turn, add_record-Turn}
use blktrace.Iowatcher.Lines.Peaks.{sum_at, Added, Peak, add_at-sum_at, add_at-Peak}

-- What the records of the second j add, for a weight of each record
unfoldable pub in_second : (BlkIoTrace → ℕ) → ℕ → List BlkIoTrace → ℕ
in_second w j [] = 0
in_second w j (io ∷ ios) = (if second_of io == j then w io else 0) + in_second w j ios

unfoldable pub in_all : (BlkIoTrace → ℕ) → List BlkIoTrace → ℕ
in_all w [] = 0
in_all w (io ∷ ios) = w io + in_all w ios

-- Records after max_seconds have no weight.
unfoldable pub until : ℕ → (BlkIoTrace → ℕ) → BlkIoTrace → ℕ
until max_seconds w io = if ltb max_seconds (seconds io.time) then 0 else w io

in_second-in_all :
    (w : BlkIoTrace → ℕ) (j : ℕ) (ios : List BlkIoTrace) → in_second w j ios ≤ in_all w ios
unfolding in_second in_all
in_second-in_all w j [] = omega arith
in_second-in_all w j (io ∷ ios) = ground (arith, in_second-in_all w j ios)

-- A graph whose sums are those of the records so far, with its maximum
pub record Sums (sums : ℕ → ℕ) (gld : GraphLineData) : Type 0 where
  pub peak : Peak gld
  pub sums_at : (j : ℕ) → sum_at gld j ≡ sums j

Added-Sums :
    (i n : ℕ) (sums : ℕ → ℕ) (gld gld' : GraphLineData)
    → sums i + n < 2 ^ 64
    → Added i n gld gld'
    → Sums sums gld
    → Sums (λ j. sums j + (if i == j then n else 0)) gld'
Added-Sums i n sums gld gld' small (inl (z, e)) s =
    subst (Sums _) (sym e) (record { peak = s.peak; sums_at = λ j. ground (arith, s.sums_at j, z) })
Added-Sums i n sums gld gld' small (inr e) s =
    let less : sum_at gld i + n < 2 ^ 64 = rw (s.sums_at i) small in
    record {
      peak = add_at-Peak i n gld gld' e less s.peak;
      sums_at = λ j. ground (arith, add_at-sum_at i n gld gld' e less j, s.sums_at j, s.sums_at i);
    }

-- No sum of 64 bits overflows.
abbrev pub Fitting : (ℕ → ℕ) → (BlkIoTrace → ℕ) → List BlkIoTrace → Type 0
Fitting sums w ios = (j : ℕ) → sums j + in_all w ios < 2 ^ 64

abbrev plus : (ℕ → ℕ) → (BlkIoTrace → ℕ) → List BlkIoTrace → ℕ → ℕ
plus sums w ios j = sums j + in_second w j ios

abbrev plus_one : (ℕ → ℕ) → (BlkIoTrace → ℕ) → BlkIoTrace → ℕ → ℕ
plus_one sums w io j = sums j + (if second_of io == j then w io else 0)

Sums-congr : (a b : ℕ → ℕ) (gld : GraphLineData) → ((j : ℕ) → a j ≡ b j) → Sums a gld → Sums b gld
Sums-congr a b gld e s = record { peak = s.peak; sums_at = λ j. s.sums_at j ∙ e j }

plus-nil :
    (w : BlkIoTrace → ℕ) (sums : ℕ → ℕ) (gld : GraphLineData)
    → Sums sums gld
    → Sums (plus sums w []) gld
unfolding in_second
plus-nil w sums gld = Sums-congr _ _ gld (λ j. omega arith)

module _ (w : BlkIoTrace → ℕ) (io : BlkIoTrace) (ios : List BlkIoTrace) (sums : ℕ → ℕ) where
  Fitting-plus_one : Fitting sums w (io ∷ ios) → Fitting (plus_one sums w io) w ios
  unfolding in_all
  Fitting-plus_one f j = ground (arith, f j)

  Fitting-skip : Fitting sums w (io ∷ ios) → Fitting sums w ios
  unfolding in_all
  Fitting-skip f j = ground (arith, f j)

  plus-plus_one :
      (gld : GraphLineData)
      → Sums (plus (plus_one sums w io) w ios) gld
      → Sums (plus sums w (io ∷ ios)) gld
  unfolding in_second
  plus-plus_one gld = Sums-congr _ _ gld (λ j. omega arith)

  plus-skip :
      (gld : GraphLineData)
      → w io ≡ 0
      → Sums (plus sums w ios) gld
      → Sums (plus sums w (io ∷ ios)) gld
  unfolding in_second
  plus-skip gld z = Sums-congr _ _ gld (λ j. ground (arith, z))

  Added-plus_one :
      (n : ℕ) (gld gld' : GraphLineData)
      → w io ≡ n
      → Fitting sums w (io ∷ ios)
      → Added (second_of io) n gld gld'
      → Sums sums gld
      → Sums (plus_one sums w io) gld'
  unfolding in_all
  Added-plus_one n gld gld' e f a s =
      Sums-congr _ _ gld' (λ j. ground (arith, e))
        (Added-Sums (second_of io) n sums gld gld' (ground (arith, f (second_of io), e)) a s)

-- The three graphs have the sums of the records so far.
pub record AllSums (r w o : ℕ → ℕ) (g : Graphs) : Type 0 where
  pub tput_reads : Sums r g.tput_reads
  pub tput_writes : Sums w g.tput_writes
  pub iop : Sums o g.iop

module _ (nan64 : ℕ) (found : Found) (n : ℕ) where
  -- What a record adds to each of the graphs
  abbrev pub reads_of : BlkIoTrace → ℕ
  reads_of io = until n (read_bytes found) io

  abbrev pub writes_of : BlkIoTrace → ℕ
  writes_of io = until n (write_bytes found) io

  abbrev pub operations_of : BlkIoTrace → ℕ
  operations_of io = until n (operations found) io

  read-AllSums :
      (ios : List BlkIoTrace) (g : Graphs) (r w o : ℕ → ℕ)
      → Fitting r reads_of ios
      → Fitting w writes_of ios
      → Fitting o operations_of ios
      → AllSums r w o g
      → OnSome
          (AllSums (plus r reads_of ios) (plus w writes_of ios) (plus o operations_of ios))
          (read_trace_events nan64 found n ios g)
  unfolding read_trace_events until
  read-AllSums [] g r w o a b c s = record {
    tput_reads = plus-nil reads_of r g.tput_reads s.tput_reads;
    tput_writes = plus-nil writes_of w g.tput_writes s.tput_writes;
    iop = plus-nil operations_of o g.iop s.iop;
  }
  read-AllSums (io ∷ ios) g r w o a b c s = elim (Bool-cases (ltb n (seconds io.time))) [
    | inl h ↦
        let none_of : (f : BlkIoTrace → ℕ) → until n f io ≡ 0 = λ f. rw (until, h) refl in
        rw (read_trace_events, h)
          (OnSome-weaken _
            (AllSums (plus r reads_of (io ∷ ios)) (plus w writes_of (io ∷ ios))
              (plus o operations_of (io ∷ ios)))
            (λ g' t. record {
              tput_reads =
                  plus-skip reads_of io ios r g'.tput_reads (none_of (read_bytes found))
                    t.tput_reads;
              tput_writes =
                  plus-skip writes_of io ios w g'.tput_writes (none_of (write_bytes found))
                    t.tput_writes;
              iop = plus-skip operations_of io ios o g'.iop (none_of (operations found)) t.iop;
            })
            (read_trace_events nan64 found n ios g)
            (read-AllSums ios g r w o (Fitting-skip reads_of io ios r a)
              (Fitting-skip writes_of io ios w b) (Fitting-skip operations_of io ios o c) s))
    | inr h ↦ elim (Option-cases (add_record nan64 found io g)) [
      | inl e ↦ rw (read_trace_events, h, e) tt
      | inr (k, e) ↦
          let all_of : (f : BlkIoTrace → ℕ) → until n f io ≡ f io = λ f. rw (until, h) refl in
          let turn = subst (OnSome (Turn nan64 found io g)) e (add_record-Turn nan64 found io g) in
          let now : AllSums (plus_one r reads_of io) (plus_one w writes_of io)
              (plus_one o operations_of io) k =
            record {
              tput_reads =
                  Added-plus_one reads_of io ios r (read_bytes found io) g.tput_reads k.tput_reads
                    (all_of (read_bytes found)) a turn.reads s.tput_reads;
              tput_writes =
                  Added-plus_one writes_of io ios w (write_bytes found io) g.tput_writes
                    k.tput_writes (all_of (write_bytes found)) b turn.writes s.tput_writes;
              iop =
                  Added-plus_one operations_of io ios o (operations found io) g.iop k.iop
                    (all_of (operations found)) c turn.iop s.iop;
            } in
          rw (read_trace_events, h, e)
            (OnSome-weaken _
              (AllSums (plus r reads_of (io ∷ ios)) (plus w writes_of (io ∷ ios))
                (plus o operations_of (io ∷ ios)))
              (λ g' t. record {
                tput_reads = plus-plus_one reads_of io ios r g'.tput_reads t.tput_reads;
                tput_writes = plus-plus_one writes_of io ios w g'.tput_writes t.tput_writes;
                iop = plus-plus_one operations_of io ios o g'.iop t.iop;
              })
              (read_trace_events nan64 found n ios k)
              (read-AllSums ios k _ _ _ (Fitting-plus_one reads_of io ios r a)
                (Fitting-plus_one writes_of io ios w b) (Fitting-plus_one operations_of io ios o c)
                now))
    ]
  ]

  -- The graphs are empty, all the bytes and records of the trace fit 64 bits, and no index is out of
  -- range. After the loop over the records, each second of the two graphs of the throughput has the
  -- bytes of its reads and its writes, and each second of the graph of the operations their number.
  -- They are those of the records of the chosen event, up to max_seconds. The maximum of each graph
  -- is the largest of its sums, or 0.
  pub read_trace_events-AllSums :
      (ios : List BlkIoTrace) (g g' : Graphs)
      → AllSums (λ j. 0) (λ j. 0) (λ j. 0) g
      → in_all reads_of ios < 2 ^ 64
      → in_all writes_of ios < 2 ^ 64
      → in_all operations_of ios < 2 ^ 64
      → read_trace_events nan64 found n ios g ≡ some g'
      → AllSums
          (λ j. in_second reads_of j ios)
          (λ j. in_second writes_of j ios)
          (λ j. in_second operations_of j ios)
          g'
  unfolding until
  read_trace_events-AllSums ios g g' s a b c e =
      let out =
        subst
          (OnSome (
            AllSums (plus (λ j. 0) reads_of ios) (plus (λ j. 0) writes_of ios)
              (plus (λ j. 0) operations_of ios)))
          e
          (read-AllSums ios g (λ j. 0) (λ j. 0) (λ j. 0) (λ j. omega (arith, a))
            (λ j. omega (arith, b)) (λ j. omega (arith, c)) s) in
      record {
        tput_reads = Sums-congr _ _ g'.tput_reads (λ j. omega arith) out.tput_reads;
        tput_writes = Sums-congr _ _ g'.tput_writes (λ j. omega arith) out.tput_writes;
        iop = Sums-congr _ _ g'.iop (λ j. omega arith) out.iop;
      }
