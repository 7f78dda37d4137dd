-- ===== src/Iomon/Fifo/Laws.antt =====
-- blkiomon_do_fifo over good input, against the sequence of the traces to be matched.
use blktrace.Common.{
  ℕ, ◌+◌, ◌≡◌, refl, ap₂, ◌∙◌, Bool, true, not, ◌&&◌, Option, none, some, List, [], ◌∷◌,
  if◌then◌else◌, ◌==◌, has_bits, length, All, Bool-cases, Option-cases, inl, inr, arith,
}
use blktrace.Trace.Record.{BlkIoTrace}
use blktrace.Trace.Header.{verify_trace, trace_to_cpu}
use blktrace.Trace.Tc
use blktrace.RawVerify.{Chunk, learn}
use blktrace.Parse.RbTree.{RbOps}
use blktrace.Iomon.Matching.{Iomon, do_trace, do_traces}
use blktrace.Iomon.Fifo.{Fifo, FifoNext, break, crash, end_of_file, take_trace, receive, do_fifo}

unfoldable pub is_drv_data : BlkIoTrace → Bool
is_drv_data bit = has_bits bit.action (Tc.act Tc.drv_data)

-- An issue or a completion that no driver added
unfoldable pub is_matched : BlkIoTrace → Bool
unfolding is_drv_data
is_matched bit = not (is_drv_data bit) && has_bits bit.action (Tc.act (Tc.issue + Tc.complete))

-- The traces of the input, in the byte order of the machine
unfoldable pub traces : Bool → List Chunk → List BlkIoTrace
unfolding trace_to_cpu
traces native [] = []
traces native (c ∷ cs) = trace_to_cpu (some native) c.trace ∷ traces native cs

abbrev pub filter : (BlkIoTrace → Bool) → List BlkIoTrace → List BlkIoTrace
filter p [] = []
filter p (t ∷ ts) = if p t then t ∷ filter p ts else filter p ts

-- The trace is good, its payload is there, and it can be sent on if it is a driver's.
abbrev pub IsGood : Bool → (BlkIoTrace → Bool) → Chunk → Type 0
IsGood native dump c =
    (verify_trace (trace_to_cpu (some native) c.trace) ≡ true)
    × (c.payload ≡ true)
    × (is_drv_data (trace_to_cpu (some native) c.trace) ≡ true
        → dump (trace_to_cpu (some native) c.trace) ≡ true)

-- The end of the loop, from how the matching ended
unfoldable pub ended : ℕ → ℕ → Bool → Option Iomon → FifoNext
ended sequence driverdata native none = crash
ended sequence driverdata native (some m) = break end_of_file (record {
  data_is_native = some native;
  sequence = sequence;
  driverdata = driverdata;
  iomon = m;
})

ended_congr :
    {a a' b b' : ℕ} (native : Bool) (o : Option Iomon)
    → a ≡ a'
    → b ≡ b'
    → ended a b native o ≡ ended a' b' native o
ended_congr native o e f = ap₂ (λ a b. ended a b native o) e f

abbrev known : Bool → ℕ → ℕ → Iomon → Fifo
known native sequence driverdata m = record {
  data_is_native = some native;
  sequence = sequence;
  driverdata = driverdata;
  iomon = m;
}

-- A good trace passes the checks.
receive-take_trace :
    (ops : RbOps) (dump : BlkIoTrace → Bool) (native : Bool) (c : Chunk) (sequence driverdata : ℕ)
    (m : Iomon)
    → IsGood native dump c
    → receive ops dump c (known native sequence driverdata m)
      ≡ take_trace ops dump
          (trace_to_cpu (some native) c.trace)
          (known native sequence driverdata m)
unfolding receive learn
receive-take_trace ops dump native c sequence driverdata m g =
    elim (Bool-cases ((trace_to_cpu (some native) c.trace).pdu_len == 0)) [
      | inl h ↦ rw (g.0, g.1, h) refl
      | inr h ↦ rw (g.0, g.1, h) refl
    ]

-- The byte order is known and the input is good. Then the loop is the calls of blkiomon_do_trace for
-- the traces that are issues or completions and no driver's, in their order: it crashes where one of
-- them divides by zero, and else goes to the end, with every trace counted and the driver's apart.
pub do_fifo-do_traces :
    (ops : RbOps) (dump : BlkIoTrace → Bool) (native : Bool) (cs : List Chunk)
    (sequence driverdata : ℕ) (m : Iomon)
    → All (IsGood native dump) cs
    → do_fifo ops dump cs (record {
      data_is_native = some native;
      sequence = sequence;
      driverdata = driverdata;
      iomon = m;
    })
      ≡ ended
          (sequence + length cs)
          (driverdata + length (filter is_drv_data (traces native cs)))
          native
          (do_traces ops (filter is_matched (traces native cs)) m)
unfolding do_fifo take_trace do_traces traces ended is_matched is_drv_data
do_fifo-do_traces ops dump native [] sequence driverdata m g =
    ended_congr native (some m) (omega arith) (omega arith)
do_fifo-do_traces ops dump native (c ∷ cs) sequence driverdata m g =
    let bit = trace_to_cpu (some native) c.trace in
    let good = receive-take_trace ops dump native c sequence driverdata m g.0 in
    let rest = do_fifo-do_traces ops dump native cs in
    elim (Bool-cases (has_bits bit.action (Tc.act Tc.drv_data))) [
      | inl h ↦
          rw (do_fifo, good, h, take_trace, g.0.2 h)
            (rest (sequence + 1) (driverdata + 1) m g.1
              ∙ ended_congr native _ (omega arith) (omega arith))
      | inr h ↦ elim (Bool-cases (has_bits bit.action (Tc.act (Tc.issue + Tc.complete)))) [
        | inl k ↦ elim (Option-cases (do_trace ops bit m)) [
          | inl e ↦ rw (do_fifo, good, h, k, take_trace, do_traces, e) refl
          | inr (m', e) ↦
              rw (do_fifo, good, h, k, take_trace, do_traces, e)
                (rest (sequence + 1) driverdata m' g.1
                  ∙ ended_congr native _ (omega arith) (omega arith))
        ]
        | inr k ↦
            rw (do_fifo, good, h, k, take_trace)
              (rest (sequence + 1) driverdata m g.1
                ∙ ended_congr native _ (omega arith) (omega arith))
      ]
    ]
