-- ===== src/Tests/Tables.antt =====
-- The tables of processes, the counts of bytes and the skipped sequence numbers.
use blktrace.Common.{
  ℕ, ◌+◌, ◌^◌, ◌≡◌, refl, true, none, some, List, [], ◌∷◌, if◌then◌else◌, ◌==◌, arith, leb, get_or,
  replicate, zero, suc, ◌&&◌,
}
use blktrace.Trace.Record.{BlkIoTrace}
use blktrace.Trace.Ta
use blktrace.Parse.IoStats.{zero_stats}
use blktrace.Parse.Account.{account_queue}
use blktrace.Parse.Account.Volumes.{
  volume, volume-account, account, queue, queued, change, in_direction, effect,
}
use blktrace.Parse.Processes.{find_ppm, add_ppm_hash, comm_of, account_process}
use blktrace.Parse.Processes.Names.{find_ppm-add_ppm_hash}
use blktrace.Parse.Processes.Stats.{IsTable, stats_of, stats-account_process}
use blktrace.Parse.Skips.{SkipInfo, insert_skip, check_current_skips}
use blktrace.Parse.Skips.Laws.{
  cover, Ranges, Removes, cover-insert_skip, check_current_skips-Removes,
}
use blktrace.Tests.Data.{trace_of, write_fs, plain_hash, no_processes}

abbrev sample : BlkIoTrace
sample = trace_of 1 100 64 (write_fs Ta.queue) 3

abbrev shell : List ℕ
shell = 115 ∷ 104 ∷ []

find_ppm-add_ppm_hash_example :
    (find_ppm plain_hash 7 (add_ppm_hash plain_hash 42 shell no_processes).0 ≡ (
      if 42 == 7
      then some (add_ppm_hash plain_hash 42 shell no_processes).1
      else find_ppm plain_hash 7 no_processes))
    × ((add_ppm_hash plain_hash 42 shell no_processes).1
        ≡ elim (find_ppm plain_hash 42 no_processes) [
          | some ppm ↦ ppm
          | none ↦ record { pid = 42; comm = comm_of shell }
        ])
find_ppm-add_ppm_hash_example = find_ppm-add_ppm_hash plain_hash 42 7 shell no_processes refl

empty_chain : (n h : ℕ) → get_or (replicate {A = List ℕ} n []) h [] ≡ []
empty_chain zero h = refl
empty_chain (suc n) zero = refl
empty_chain (suc n) (suc h) = empty_chain n h

no_processes-IsTable : IsTable plain_hash no_processes
no_processes-IsTable = record {
  ppm_size = refl;
  ppi_size = refl;
  chains = λ h. rw (empty_chain 256 h) tt;
}

stats-account_process_example :
    stats_of plain_hash 42
      (account_process plain_hash true 42 (λ s. account_queue s sample true) no_processes)
    ≡ (if 42 == 42
        then account_queue (stats_of plain_hash 42 no_processes) sample true
        else stats_of plain_hash 42 no_processes)
stats-account_process_example =
    stats-account_process plain_hash no_processes 42 42 (λ s. account_queue s sample true)
      no_processes-IsTable

volume-account_example :
    volume queued true (account queue zero_stats sample true)
    ≡ change (in_direction true true (effect queue queued)) (volume queued true zero_stats) 4096
volume-account_example = volume-account queue queued true true zero_stats sample (omega arith)

abbrev huge : BlkIoTrace
huge = record sample { bytes = 2 ^ 31 + 512 }

abbrev gap : List SkipInfo
gap = record { start = 10; end = 12 } ∷ []

cover-insert_skip_example :
    Ranges (insert_skip gap 13 15)
    × ((n : ℕ)
        → cover n (insert_skip gap 13 15) ≡ cover n gap + (if leb 13 n && leb n 15 then 1 else 0))
cover-insert_skip_example =
    cover-insert_skip gap 13 15 (omega arith, omega arith, tt) (omega arith) (omega arith)

check_current_skips-Removes_example : Removes 10 gap (check_current_skips gap 10)
check_current_skips-Removes_example =
    check_current_skips-Removes gap 10 (omega arith, omega arith, tt) (ground arith, tt)
