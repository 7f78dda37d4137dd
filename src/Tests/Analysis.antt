-- ===== src/Tests/Analysis.antt =====
-- What btt computes of a few traces.
use blktrace.Common.{
  ℕ, ◌/◌, ◌^◌, ◌%◌, ◌≡◌, Bool, true, none, some, List, [], ◌∷◌, ltb, length, arith, All, find,
}
use blktrace.Trace.Record.{BlkIoTrace}
use blktrace.Trace.Ta
use blktrace.Parse.RbTree.{Tree, null, node, to_list}
use blktrace.Btt.PLive.{PLive, p_live_add}
use blktrace.Btt.PLive.Adds.{Added, p_live_add-Added}
use blktrace.Btt.PLive.Cover.{Apart}
use blktrace.Btt.PLive.Visit.{p_live_get-totals, live_time, latest}
use blktrace.Btt.PLive.{p_live_get}
use blktrace.Btt.Inlines.{AvgInfo}
use blktrace.Btt.Inlines.Ranges.{InOrder, holds, ranges_of, ranges_of-InOrder}
use blktrace.Btt.Seek.{Seeks, seeki_mode, seeki_median, Seeki}
use blktrace.Btt.Seek.Modes.{modes_of, upward, downward, first_of, seeki_mode-seeki_median}
use blktrace.Btt.IoTree.{io_start, io_end, rb_find_sec, rb_foreach}
use blktrace.Btt.IoTree.Finds.{
  Disjoint, filter, has_sector, contained, preorder, rb_find_sec-rb_foreach,
}
use blktrace.Tests.Data.{trace_of, read_fs, plain_ops}

-- Two intervals apart, in a tree
abbrev lives : Tree PLive
lives = node null (record { dt = 10; ct = 20 }) (node null (record { dt = 30; ct = 40 }) null)

lives-Apart : Apart (to_list lives)
unfolding to_list
lives-Apart = (omega arith, (omega arith, tt), (omega arith, tt, tt))

none-Apart : Apart (to_list {A = PLive} null)
unfolding to_list
none-Apart = tt

p_live_add-Added_example :
    Added 15 35 (to_list lives) (to_list (p_live_add plain_ops (lives, null) 15 35).0)
    × Added 15 35 (to_list {A = PLive} null) (to_list (p_live_add plain_ops (lives, null) 15 35).1)
p_live_add-Added_example =
    p_live_add-Added plain_ops lives null 15 35 (omega arith) lives-Apart none-Apart

p_live_get-totals_example :
    ((p_live_get lives).nlives ≡ length (to_list lives) % 2 ^ 64)
    × ((p_live_get lives).tot_live ≡ live_time (to_list lives) % 2 ^ 64)
    × ((p_live_get lives).t_start ≡ 0)
    × ((p_live_get lives).t_end ≡ latest (to_list lives))
p_live_get-totals_example = p_live_get-totals lives

abbrev no_values : AvgInfo
no_values = record { min = 0; max = 0; total = 0; n = 0 }

-- Times less than 10 apart are near.
abbrev near10 : ℕ → Bool
near10 d = ltb d 10

ranges_of-InOrder_example :
    InOrder (ranges_of near10 [] (5 ∷ 9 ∷ 30 ∷ []))
    × All (λ t. holds t (ranges_of near10 [] (5 ∷ 9 ∷ 30 ∷ [])) ≡ true) (5 ∷ 9 ∷ 30 ∷ [])
ranges_of-InOrder_example =
    ranges_of-InOrder near10 (5 ∷ 9 ∷ 30 ∷ []) (omega arith, (omega arith, (omega arith, tt)))

abbrev last_seek : Seeki
last_seek = record { last_start = 64; last_end = 72 }

abbrev requests : Tree BlkIoTrace
requests =
    node (node null (trace_of 1 100 64 (read_fs Ta.queue) 0) null)
      (trace_of 2 200 72 (read_fs Ta.queue) 0) null

requests-Disjoint : Disjoint (to_list requests)
unfolding to_list io_start io_end
requests-Disjoint = (omega arith, (omega arith, tt), (omega arith, tt, tt))

rb_find_sec-rb_foreach_example :
    (rb_find_sec requests 75 ≡ find (has_sector 75) (to_list requests))
    × (rb_foreach 64 80 requests ≡ filter (contained 64 80) (preorder requests))
rb_find_sec-rb_foreach_example = rb_find_sec-rb_foreach requests 75 64 80 requests-Disjoint

abbrev some_requests : List (ℕ × ℕ)
some_requests = (64, 4096) ∷ (72, 4096) ∷ (16, 4096) ∷ []

-- One seek of no distance, three of 8 sectors
abbrev some_seeks : Seeks
some_seeks = record {
  root =
      node (node null (record { sectors = 0; nseeks = 1 }) null)
        (record { sectors = 8; nseeks = 3 }) null;
  tot_seeks = 4;
  last = record { last_start = 0; last_end = 8 };
}

seeki_mode-seeki_median_example :
    (seeki_mode some_seeks ≡ modes_of (upward some_seeks.root))
    × (seeki_median some_seeks
        ≡ elim (first_of (4 / 2) (downward some_seeks.root)) [ some v ↦ v | none ↦ 0 ])
seeki_mode-seeki_median_example = seeki_mode-seeki_median some_seeks
