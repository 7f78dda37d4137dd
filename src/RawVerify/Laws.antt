-- ===== src/RawVerify/Laws.antt =====
-- What the counters of blkrawverify's process say of a file: each record has one verdict, by the last
-- good record before it, and the counters are the numbers of the verdicts.
use blktrace.Common.{
  suc, List, [], ◌∷◌, length, refl, ◌<◌, ℕ, ◌+◌, ◌^◌, ◌≤◌, ◌≡◌, ◌∙◌, Option, none, some, arith,
  Bool-cases, inl, inr,
}
use blktrace.Trace.Record.{BlkIoTrace}
use blktrace.Trace.Header.{Native, trace_to_cpu}
use blktrace.RawVerify.{Chunk, process_step, process_chunks, process, learn, no_counts, Counts}
use blktrace.RawVerify.Verdicts.{
  Verdict, good, bad_magic, bad_version, cut_short, other_cpu, skipped, old_sequence, old_time,
  other_device, verdict, ends, last_good, verdicts, goods, bads, cpus, sequences, devices, times,
  Gained,
}
use blktrace.RawVerify.Outcomes.{
  HasRoom, Saves, tallied, outcome, process_bit-result, result-outcome,
}

tallied-Gained :
    (v : Verdict) (bit : BlkIoTrace) (c : Counts) (native : Native)
    → Gained c (v ∷ []) (tallied v bit (record c { data_is_native = native }))
tallied-Gained v bit c native = record {
  ngood = omega arith;
  nbad = omega arith;
  nbad_trace = refl;
  nbad_pdu = refl;
  nbad_cpu = omega arith;
  nbad_seq = omega arith;
  nbad_dev = omega arith;
  nbad_time = omega arith;
}

Gained-all :
    (c c' c'' : Counts) (v : Verdict) (vs : List Verdict)
    → Gained c (v ∷ []) c'
    → Gained c' vs c''
    → Gained c (v ∷ vs) c''
Gained-all c c' c'' v vs g h = record {
  ngood = omega (arith, g.ngood, h.ngood);
  nbad = omega (arith, g.nbad, h.nbad);
  nbad_trace = omega (arith, g.nbad_trace, h.nbad_trace);
  nbad_pdu = omega (arith, g.nbad_pdu, h.nbad_pdu);
  nbad_cpu = omega (arith, g.nbad_cpu, h.nbad_cpu);
  nbad_seq = omega (arith, g.nbad_seq, h.nbad_seq);
  nbad_dev = omega (arith, g.nbad_dev, h.nbad_dev);
  nbad_time = omega (arith, g.nbad_time, h.nbad_time);
}

one_each :
    (v : Verdict) → (goods v + bads v ≤ 1) × (cpus v + sequences v + devices v + times v ≤ bads v)
one_each good = (omega arith, omega arith)
one_each bad_magic = (omega arith, omega arith)
one_each bad_version = (omega arith, omega arith)
one_each cut_short = (omega arith, omega arith)
one_each other_cpu = (omega arith, omega arith)
one_each skipped = (omega arith, omega arith)
one_each old_sequence = (omega arith, omega arith)
one_each old_time = (omega arith, omega arith)
one_each other_device = (omega arith, omega arith)

tallied-HasRoom :
    (v : Verdict) (bit : BlkIoTrace) (c : Counts) (n : ℕ)
    → HasRoom (suc n) c
    → HasRoom n (tallied v bit c)
tallied-HasRoom v bit c n r = record {
  all = omega (arith, r.all, (one_each v).0);
  kinds = omega (arith, r.kinds, (one_each v).1);
}

-- What is saved stands in four of the fields.
Saves-same :
    (last : Option BlkIoTrace) (c c' : Counts)
    → Saves last c
    → c'.ngood ≡ c.ngood
    → c'.save_sequence ≡ c.save_sequence
    → c'.save_time ≡ c.save_time
    → c'.save_device ≡ c.save_device
    → Saves last c'
Saves-same none c c' s n q t d = n ∙ s
Saves-same (some g) c c' s n q t d = (omega (arith, n, s.0), q ∙ s.1, t ∙ s.2, d ∙ s.3)

tallied-Saves :
    (v : Verdict) (bit : BlkIoTrace) (c : Counts) (last : Option BlkIoTrace)
    → Saves last c
    → Saves (last_good last bit v) (tallied v bit c)
tallied-Saves good bit c last s = (omega arith, refl, refl, refl)
tallied-Saves bad_magic bit c last s =
    Saves-same last c (tallied bad_magic bit c) s (omega arith) refl refl refl
tallied-Saves bad_version bit c last s =
    Saves-same last c (tallied bad_version bit c) s (omega arith) refl refl refl
tallied-Saves cut_short bit c last s =
    Saves-same last c (tallied cut_short bit c) s (omega arith) refl refl refl
tallied-Saves other_cpu bit c last s =
    Saves-same last c (tallied other_cpu bit c) s (omega arith) refl refl refl
tallied-Saves skipped bit c last s =
    Saves-same last c (tallied skipped bit c) s (omega arith) refl refl refl
tallied-Saves old_sequence bit c last s =
    Saves-same last c (tallied old_sequence bit c) s (omega arith) refl refl refl
tallied-Saves old_time bit c last s =
    Saves-same last c (tallied old_time bit c) s (omega arith) refl refl refl
tallied-Saves other_device bit c last s =
    Saves-same last c (tallied other_device bit c) s (omega arith) refl refl refl

module _ (cpu : ℕ) (chunk : Chunk) (c : Counts) (last : Option BlkIoTrace) where
  abbrev known : Native
  known = learn c.data_is_native chunk.trace.magic

  abbrev bit : BlkIoTrace
  bit = trace_to_cpu known chunk.trace

  abbrev found : Verdict
  found = verdict cpu last bit chunk.payload

  abbrev after : Counts
  after = tallied found bit (record c { data_is_native = known })

  process_step-outcome :
      (n : ℕ)
      → HasRoom (suc n) c
      → Saves last c
      → process_step cpu chunk c ≡ outcome found bit (record c { data_is_native = known })
  unfolding process_step
  process_step-outcome n r s =
      process_bit-result cpu bit chunk.payload (record c { data_is_native = known }) last n
        (record { all = r.all; kinds = r.kinds })
        (Saves-same last c (record c { data_is_native = known }) s refl refl refl refl)
      ∙ result-outcome found bit (record c { data_is_native = known })

process_chunks-Gained :
    (cpu : ℕ) (chunks : List Chunk) (c : Counts) (last : Option BlkIoTrace)
    → HasRoom (length chunks) c
    → Saves last c
    → Gained c (verdicts cpu c.data_is_native last chunks) (process_chunks cpu chunks c)
unfolding verdicts process_chunks
process_chunks-Gained cpu [] c last r s = record {
  ngood = omega arith;
  nbad = omega arith;
  nbad_trace = refl;
  nbad_pdu = refl;
  nbad_cpu = omega arith;
  nbad_seq = omega arith;
  nbad_dev = omega arith;
  nbad_time = omega arith;
}
process_chunks-Gained cpu (chunk ∷ rest) c last r s =
    let c0 : Counts = record c { data_is_native = known cpu chunk c last } in
    let c' = after cpu chunk c last in
    let v = found cpu chunk c last in
    let g : Gained c (v ∷ []) c' =
      tallied-Gained v (bit cpu chunk c last) c (known cpu chunk c last) in
    let e = process_step-outcome cpu chunk c last (length rest) r s in
    elim (Bool-cases (ends v)) [
      | inl h ↦ rw (process_chunks, verdicts, e, h) g
      | inr h ↦
          rw (process_chunks, verdicts, e, h)
            (Gained-all c c' _ v _ g (
              process_chunks-Gained cpu rest c' (last_good last (bit cpu chunk c last) v)
                (tallied-HasRoom v (bit cpu chunk c last) c0 (length rest)
                  (record { all = r.all; kinds = r.kinds }))
                (tallied-Saves v (bit cpu chunk c last) c0 last
                  (Saves-same last c c0 s refl refl refl refl))))
    ]

-- process on a file of fewer than 2 ^ 32 records. Take the verdict on each record, by the last good one
-- before it, up to one of another version or one cut short. Then ngood is the number of the good ones;
-- nbad that of the bad ones, which neither a record of another version nor one of the notify category
-- is; nbad_cpu, nbad_seq, nbad_dev and nbad_time are the numbers of those of their kinds, where one cut
-- short counts as out of sequence, and one with a bad magic number as of no kind; nbad_trace and
-- nbad_pdu are 0.
pub process-verdicts :
    (cpu : ℕ) (native : Native) (chunks : List Chunk)
    → length chunks < 2 ^ 32
    → Gained (no_counts native) (verdicts cpu native none chunks) (process cpu native chunks)
unfolding process
process-verdicts cpu native chunks lt =
    process_chunks-Gained cpu chunks (no_counts native) none
      (record { all = omega (arith, lt); kinds = omega arith }) refl
