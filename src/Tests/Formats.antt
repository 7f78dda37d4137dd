-- ===== src/Tests/Formats.antt =====
-- The records of a trace file, and the words of the action mask.
use blktrace.Common.{[], ◌≡◌, refl, true, false, some, arith}
use blktrace.Trace.Record.{BlkIoTrace, InRange}
use blktrace.Trace.Header.{verify_trace, check_magic, check_data_endianness, trace_to_cpu}
use blktrace.Trace.Ta
use blktrace.Trace.Tc
use blktrace.Trace.Laws.{IsForeign, trace_to_cpu-check_data_endianness}
use blktrace.ActMask.{codes, strcasecmp_eq, tolower, find_mask_in, find_mask_map, compare_mask_map}
use blktrace.Tests.Data.{trace_of, read_fs}

abbrev sample : BlkIoTrace
sample = trace_of 1 100 64 (read_fs Ta.queue) 3

sample-InRange : InRange sample
sample-InRange = record {
  magic_lt = omega arith;
  sequence_lt = omega arith;
  time_lt = omega arith;
  sector_lt = omega arith;
  bytes_lt = omega arith;
  action_lt = omega arith;
  pid_lt = omega arith;
  device_lt = omega arith;
  cpu_lt = omega arith;
  error_lt = omega arith;
  pdu_len_lt = omega arith;
}

sample-verify_trace : verify_trace sample ≡ true
unfolding verify_trace check_magic
sample-verify_trace = refl

-- The same trace as a machine of the other byte order wrote it
abbrev foreign_sample : BlkIoTrace
foreign_sample = record {
  magic = 0x07746165;
  sequence = 0x01000000;
  time = 0x6400000000000000;
  sector = 0x4000000000000000;
  bytes = 0x00100000;
  action = 0x01000101;
  pid = 0x2a000000;
  device = 0x00008000;
  cpu = 0x03000000;
  error = 0;
  pdu_len = 0;
  pdu = [];
}

foreign_sample-InRange : InRange foreign_sample
foreign_sample-InRange = record {
  magic_lt = omega arith;
  sequence_lt = omega arith;
  time_lt = omega arith;
  sector_lt = omega arith;
  bytes_lt = omega arith;
  action_lt = omega arith;
  pid_lt = omega arith;
  device_lt = omega arith;
  cpu_lt = omega arith;
  error_lt = omega arith;
  pdu_len_lt = omega arith;
}

sample-IsForeign : IsForeign sample foreign_sample
sample-IsForeign = record {
  magic = (refl, refl, refl, refl);
  sequence = (refl, refl, refl, refl);
  time = (refl, refl, refl, refl, refl, refl, refl, refl);
  sector = (refl, refl, refl, refl, refl, refl, refl, refl);
  bytes = (refl, refl, refl, refl);
  action = (refl, refl, refl, refl);
  pid = (refl, refl, refl, refl);
  device = (refl, refl, refl, refl);
  cpu = (refl, refl, refl, refl);
  error = (refl, refl);
  pdu_len = (refl, refl);
  pdu = refl;
}

trace_to_cpu-check_data_endianness_example :
    (check_data_endianness sample.magic ≡ some true)
    × (trace_to_cpu (check_data_endianness sample.magic) sample ≡ sample)
    × (check_data_endianness foreign_sample.magic ≡ some false)
    × (trace_to_cpu (check_data_endianness foreign_sample.magic) foreign_sample ≡ sample)
trace_to_cpu-check_data_endianness_example =
    trace_to_cpu-check_data_endianness sample foreign_sample sample-InRange foreign_sample-InRange
      sample-IsForeign sample-verify_trace

sample-native : check_data_endianness sample.magic ≡ some true
unfolding check_data_endianness check_magic
sample-native = refl

sync-find_mask_map : find_mask_map (codes "Sync") ≡ some Tc.sync
unfolding find_mask_map find_mask_in compare_mask_map strcasecmp_eq tolower
sync-find_mask_map = refl
