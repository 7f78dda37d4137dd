-- ===== src/RawVerify/Verdicts.antt =====
-- The verdicts on the records that blkrawverify reads, and what they come to in its counters.
use blktrace.Common.{
  List, [], ◌∷◌, ℕ, ◌+◌, ◌/◌, ◌%◌, ◌^◌, ◌≡◌, Bool, true, false, not, ◌&&◌, Option, none, some,
  if◌then◌else◌, ◌==◌, ltb, has_bit,
}
use blktrace.Trace.Record.{BlkIoTrace}
use blktrace.Trace.Header.{Native, trace_to_cpu}
use blktrace.RawVerify.{Chunk, learn, Counts}

-- What is found of a record. `skipped` is one of the notify category, which is not counted.
pub data Verdict : Type 0 where
  good bad_magic bad_version cut_short other_cpu skipped old_sequence old_time other_device :
      Verdict

-- The verdict on a record that belongs to the CPU and comes after the last good one, if any
abbrev pub against_last : Option BlkIoTrace → BlkIoTrace → Verdict
against_last none bit = good
against_last (some g) bit =
    if not (ltb g.sequence bit.sequence)
    then old_sequence
    else if not (ltb g.time bit.time)
    then old_time
    else if g.device == bit.device
    then good
    else other_device

abbrev pub verdict : ℕ → Option BlkIoTrace → BlkIoTrace → Bool → Verdict
verdict cpu last bit payload =
    if not (bit.magic / 2 ^ 8 == 0x656174)
    then bad_magic
    else if not (bit.magic % 2 ^ 8 == 7)
    then bad_version
    else if ltb 0 bit.pdu_len && not payload
    then cut_short
    else if not (bit.cpu == cpu)
    then other_cpu
    else if has_bit 26 bit.action
    then skipped
    else against_last last bit

-- The two verdicts after which the rest of the file is not read
abbrev pub ends : Verdict → Bool
ends bad_version = true
ends cut_short = true
ends _ = false

abbrev pub last_good : Option BlkIoTrace → BlkIoTrace → Verdict → Option BlkIoTrace
last_good last bit good = some bit
last_good last bit _ = last

-- The verdicts on the records of a file, up to the one that ends it
unfoldable pub verdicts : ℕ → Native → Option BlkIoTrace → List Chunk → List Verdict
verdicts cpu native last [] = []
verdicts cpu native last (chunk ∷ rest) =
    let known = learn native chunk.trace.magic in
    let bit = trace_to_cpu known chunk.trace in
    let v = verdict cpu last bit chunk.payload in
    let later = verdicts cpu known (last_good last bit v) rest in v ∷ (if ends v then [] else later)

-- The number of verdicts of a kind
abbrev pub number : (Verdict → ℕ) → List Verdict → ℕ
number kind [] = 0
number kind (v ∷ vs) = kind v + number kind vs

abbrev pub goods : Verdict → ℕ
goods good = 1
goods _ = 0

abbrev pub bads : Verdict → ℕ
bads good = 0
bads bad_version = 0
bads skipped = 0
bads _ = 1

abbrev pub cpus : Verdict → ℕ
cpus other_cpu = 1
cpus _ = 0

-- A record without its payload counts as one out of sequence.
abbrev pub sequences : Verdict → ℕ
sequences old_sequence = 1
sequences cut_short = 1
sequences _ = 0

abbrev pub devices : Verdict → ℕ
devices other_device = 1
devices _ = 0

abbrev pub times : Verdict → ℕ
times old_time = 1
times _ = 0

-- The counters c', after the verdicts vs, from c
pub record Gained (c : Counts) (vs : List Verdict) (c' : Counts) : Type 0 where
  pub ngood : c'.ngood ≡ c.ngood + number goods vs
  pub nbad : c'.nbad ≡ c.nbad + number bads vs
  pub nbad_trace : c'.nbad_trace ≡ c.nbad_trace
  pub nbad_pdu : c'.nbad_pdu ≡ c.nbad_pdu
  pub nbad_cpu : c'.nbad_cpu ≡ c.nbad_cpu + number cpus vs
  pub nbad_seq : c'.nbad_seq ≡ c.nbad_seq + number sequences vs
  pub nbad_dev : c'.nbad_dev ≡ c.nbad_dev + number devices vs
  pub nbad_time : c'.nbad_time ≡ c.nbad_time + number times vs
