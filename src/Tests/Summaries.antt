-- ===== src/Tests/Summaries.antt =====
-- The summaries of blkiomon, and a trace file as blkrawverify reads it.
use blktrace.Common.{◌≡◌, refl, true, none, List, [], ◌∷◌, arith, replicate}
use blktrace.Trace.Ta
use blktrace.Iomon.{minmax_init, minmax_merge, histlog2_index, histlog2_merge, size_hist_table}
use blktrace.Iomon.Merge.{minmax_accounts, minmax_merge-accounts}
use blktrace.Iomon.Histogram.{
  IsIndex, histlog2_index-IsIndex, histlog2_accounts, histlog2_merge-histlog2_accounts,
}
use blktrace.RawVerify.{Chunk, no_counts, process}
use blktrace.RawVerify.Verdicts.{Gained, verdicts}
use blktrace.RawVerify.Laws.{process-verdicts}
use blktrace.Tests.Data.{trace_of, read_fs}

minmax_merge-accounts_example :
    minmax_merge (minmax_accounts (5 ∷ 9 ∷ []) minmax_init) (minmax_accounts (3 ∷ []) minmax_init)
    ≡ minmax_accounts (3 ∷ []) (minmax_accounts (5 ∷ 9 ∷ []) minmax_init)
minmax_merge-accounts_example = minmax_merge-accounts (5 ∷ 9 ∷ []) (3 ∷ [])

histlog2_index-IsIndex_example :
    IsIndex 4096 size_hist_table 0 15 (histlog2_index 4096 size_hist_table)
histlog2_index-IsIndex_example = histlog2_index-IsIndex 4096 size_hist_table

histlog2_merge-histlog2_accounts_example :
    histlog2_merge
      (record { first = 0; delta = 8; num = 2 })
      (4 ∷ 5 ∷ [])
      (histlog2_accounts (record { first = 0; delta = 8; num = 2 }) (3 ∷ 0 ∷ []) (replicate 2 0))
    ≡ histlog2_accounts (record { first = 0; delta = 8; num = 2 }) (3 ∷ 0 ∷ []) (4 ∷ 5 ∷ [])
histlog2_merge-histlog2_accounts_example =
    histlog2_merge-histlog2_accounts (record { first = 0; delta = 8; num = 2 }) (3 ∷ 0 ∷ [])
      (4 ∷ 5 ∷ []) refl (omega arith, (omega arith, tt))

abbrev chunks : List Chunk
chunks =
    record { trace = trace_of 1 100 64 (read_fs Ta.queue) 0; payload = true }
    ∷ record { trace = trace_of 1 120 64 (read_fs Ta.getrq) 0; payload = true }
    ∷ []

process-verdicts_example :
    Gained (no_counts none) (verdicts 0 none none chunks) (process 0 none chunks)
process-verdicts_example = process-verdicts 0 none chunks (omega arith)
