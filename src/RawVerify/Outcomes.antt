-- ===== src/RawVerify/Outcomes.antt =====
-- What process does to its counters on each verdict.
use blktrace.Common.{
  suc, ◌<◌, ℕ, ◌+◌, ◌^◌, ◌≤◌, ◌≡◌, Bool, Option, none, some, if◌then◌else◌, arith, has_bits-has_bit,
}
use blktrace.Trace.Record.{BlkIoTrace}
use blktrace.RawVerify.{Counts, Next, continue, break, process_order, process_bit}
use blktrace.RawVerify.Verdicts.{
  Verdict, good, bad_magic, bad_version, cut_short, other_cpu, skipped, old_sequence, old_time,
  other_device, against_last, verdict, ends, goods, bads, cpus, sequences, devices, times,
}

-- The counters have room for n records more, and save the last good record.
pub record HasRoom (n : ℕ) (c : Counts) : Type 0 where
  pub all : c.ngood + c.nbad + n < 2 ^ 32
  pub kinds : c.nbad_cpu + c.nbad_seq + c.nbad_dev + c.nbad_time ≤ c.nbad

abbrev pub Saves : Option BlkIoTrace → Counts → Type 0
Saves none c = c.ngood ≡ 0
Saves (some g) c =
    (0 < c.ngood)
    × (c.save_sequence ≡ g.sequence)
    × (c.save_time ≡ g.time)
    × (c.save_device ≡ g.device)

-- What is done on a verdict, with no wrap-around
abbrev pub result : Verdict → BlkIoTrace → Counts → Next
result good bit c = continue (record c {
  save_sequence = bit.sequence;
  save_time = bit.time;
  save_device = bit.device;
  ngood = c.ngood + 1;
})
result bad_magic bit c = continue (record c { nbad = c.nbad + 1 })
result bad_version bit c = break c
result cut_short bit c = break (record c { nbad = c.nbad + 1; nbad_seq = c.nbad_seq + 1 })
result other_cpu bit c = continue (record c { nbad = c.nbad + 1; nbad_cpu = c.nbad_cpu + 1 })
result skipped bit c = continue c
result old_sequence bit c = continue (record c { nbad = c.nbad + 1; nbad_seq = c.nbad_seq + 1 })
result old_time bit c = continue (record c { nbad = c.nbad + 1; nbad_time = c.nbad_time + 1 })
result other_device bit c = continue (record c { nbad = c.nbad + 1; nbad_dev = c.nbad_dev + 1 })

process_order-result :
    (bit : BlkIoTrace) (c : Counts) (last : Option BlkIoTrace) (n : ℕ)
    → HasRoom (suc n) c
    → Saves last c
    → continue (process_order bit c) ≡ result (against_last last bit) bit c
unfolding process_order
process_order-result bit c none n r s = ground (arith, r.all, r.kinds, s)
process_order-result bit c (some g) n r s = ground (arith, r.all, r.kinds, s.0, s.1, s.2, s.3)

pub process_bit-result :
    (cpu : ℕ) (bit : BlkIoTrace) (payload : Bool) (c : Counts) (last : Option BlkIoTrace) (n : ℕ)
    → HasRoom (suc n) c
    → Saves last c
    → process_bit cpu bit payload c ≡ result (verdict cpu last bit payload) bit c
unfolding process_bit
process_bit-result cpu bit payload c last n r s =
    ground
      (arith, r.all, r.kinds, process_order-result bit c last n r s, has_bits-has_bit 26 bit.action)

-- The same for all verdicts at once
abbrev pub saved : Verdict → ℕ → ℕ → ℕ
saved good new old = new
saved _ new old = old

abbrev pub tallied : Verdict → BlkIoTrace → Counts → Counts
tallied v bit c = record c {
  save_sequence = saved v bit.sequence c.save_sequence;
  save_time = saved v bit.time c.save_time;
  save_device = saved v bit.device c.save_device;
  ngood = c.ngood + goods v;
  nbad = c.nbad + bads v;
  nbad_cpu = c.nbad_cpu + cpus v;
  nbad_seq = c.nbad_seq + sequences v;
  nbad_dev = c.nbad_dev + devices v;
  nbad_time = c.nbad_time + times v;
}

abbrev pub outcome : Verdict → BlkIoTrace → Counts → Next
outcome v bit c = if ends v then break (tallied v bit c) else continue (tallied v bit c)

pub result-outcome :
    (v : Verdict) (bit : BlkIoTrace) (c : Counts) → result v bit c ≡ outcome v bit c
result-outcome good bit c = ground arith
result-outcome bad_magic bit c = ground arith
result-outcome bad_version bit c = ground arith
result-outcome cut_short bit c = ground arith
result-outcome other_cpu bit c = ground arith
result-outcome skipped bit c = ground arith
result-outcome old_sequence bit c = ground arith
result-outcome old_time bit c = ground arith
result-outcome other_device bit c = ground arith
