-- ===== src/RawVerify.antt =====
-- process of blkrawverify.c: the check of one trace file, record by record. What is printed is left
-- out, but for the counters. A record of the file that fread delivers whole is a trace with the
-- bytes that follow it.
pub mod Verdicts
mod Outcomes
pub mod Laws
use blktrace.Common.{
  ℕ, ◌+◌, ◌%◌, ◌^◌, Bool, true, false, not, ◌&&◌, ◌||◌, Option, none, some, List, [], ◌∷◌,
  if◌then◌else◌, ◌==◌, leb, ltb, add32, has_bits, length,
}
use blktrace.Trace.Record.{BlkIoTrace, supported_version}
use blktrace.Trace.Header.{Native, check_magic, trace_to_cpu, check_data_endianness}
use blktrace.Trace.Tc

-- What is read from the file: a trace as it stands there, and whether fread gets its payload.
pub record Chunk : Type 0 where
  pub trace : BlkIoTrace
  pub payload : Bool

-- The local variables of process, with data_is_native. nbad_trace and nbad_pdu keep their 0.
pub record Counts : Type 0 where
  pub data_is_native : Native
  pub save_device : ℕ
  pub save_sequence : ℕ
  pub save_time : ℕ
  pub ngood : ℕ
  pub nbad : ℕ
  pub nbad_trace : ℕ
  pub nbad_pdu : ℕ
  pub nbad_cpu : ℕ
  pub nbad_seq : ℕ
  pub nbad_dev : ℕ
  pub nbad_time : ℕ

-- if (data_is_native == -1) check_data_endianness(bit->magic)
unfoldable pub learn : Native → ℕ → Native
unfolding check_data_endianness
learn (some b) magic = some b
learn none magic = check_data_endianness magic

-- The initial values
abbrev pub no_counts : Native → Counts
no_counts native = record {
  data_is_native = native;
  save_device = 0;
  save_sequence = 0;
  save_time = 0;
  ngood = 0;
  nbad = 0;
  nbad_trace = 0;
  nbad_pdu = 0;
  nbad_cpu = 0;
  nbad_seq = 0;
  nbad_dev = 0;
  nbad_time = 0;
}

-- How the loop goes on after a record: `continue`, or `break`.
pub data Next : Type 0 where
  continue : Counts → Next
  break : Counts → Next

-- The checks against the last good record, and the update after them
unfoldable pub process_order : BlkIoTrace → Counts → Counts
process_order bit c =
    let bad = record c { nbad = add32 c.nbad 1 } in
    if not (c.ngood == 0) && leb bit.sequence c.save_sequence
    then record bad { nbad_seq = add32 c.nbad_seq 1 }
    else if not (c.ngood == 0) && leb bit.time c.save_time
    then record bad { nbad_time = add32 c.nbad_time 1 }
    else if not (c.ngood == 0) && not (bit.device == c.save_device)
    then record bad { nbad_dev = add32 c.nbad_dev 1 }
    else record c {
      save_sequence = bit.sequence;
      save_time = bit.time;
      save_device = bit.device;
      ngood = add32 c.ngood 1;
    }

-- The body of the loop, from the record as converted
unfoldable pub process_bit : ℕ → BlkIoTrace → Bool → Counts → Next
unfolding check_magic process_order
process_bit cpu bit payload c =
    let bad = record c { nbad = add32 c.nbad 1 } in
    if not (check_magic bit.magic)
    then continue bad
    else if not (bit.magic % 2 ^ 8 == supported_version)
    then break c
    else if not (bit.pdu_len == 0) && not payload
    then break (record bad { nbad_seq = add32 c.nbad_seq 1 })
    else if not (bit.cpu == cpu)
    then continue (record bad { nbad_cpu = add32 c.nbad_cpu 1 })
    else if has_bits bit.action (Tc.act Tc.notify)
    then continue c
    else continue (process_order bit c)

unfoldable pub process_step : ℕ → Chunk → Counts → Next
unfolding learn trace_to_cpu process_bit
process_step cpu chunk c =
    let native = learn c.data_is_native chunk.trace.magic in
    process_bit cpu (trace_to_cpu native chunk.trace) chunk.payload
      (record c { data_is_native = native })

-- The loop; the value returned is the field nbad.
unfoldable pub process_chunks : ℕ → List Chunk → Counts → Counts
unfolding process_step
process_chunks cpu [] c = c
process_chunks cpu (chunk ∷ rest) c = elim (process_step cpu chunk c) [
  | continue c' ↦ process_chunks cpu rest c'
  | break c' ↦ c'
]

unfoldable pub process : ℕ → Native → List Chunk → Counts
unfolding process_chunks
process cpu native chunks = process_chunks cpu chunks (no_counts native)
