-- ===== src/Tests/Tracking.antt =====
-- A read and two writes in the tracking and in dump_trace.
use blktrace.Common.{
  ℕ, ◌+◌, ◌≡◌, refl, false, none, some, [], ◌∷◌, if◌then◌else◌, ◌==◌, arith, max, sub64, max64,
}
use blktrace.Trace.Record.{BlkIoTrace}
use blktrace.Trace.Header.{t_sec}
use blktrace.Trace.Ta
use blktrace.Parse.Processes.{at_rw}
use blktrace.Parse.RbTree.{null, node, to_list, size}
use blktrace.Parse.Tracks.{
  find_place, __find_track, IoTrack, TrackTree, log_track_complete, log_track_frontmerge,
}
use blktrace.Parse.Tracks.Tree.{tracked}
use blktrace.Parse.Tracks.Laws.{IsTree, log_track_complete_lem, log_track_frontmerge_lem}
use blktrace.Parse.Tracks.Lifecycle.{life, life_lem}
use blktrace.Parse.Dump.{dump_trace}
use blktrace.Parse.Dump.Depth.{
  depths, apply_change, seen, depths-dump_trace, dump_traces, peak, dump_traces-peak,
}
use blktrace.Tests.Data.{
  trace_of, read_fs, plain_ops, plain_hash, no_processes, track_all, junk, all_options, machine,
  idle,
}

abbrev g : BlkIoTrace
g = trace_of 1 100 64 (read_fs Ta.getrq) 0

abbrev i : BlkIoTrace
i = trace_of 2 130 64 (read_fs Ta.insert) 0

abbrev d : BlkIoTrace
d = trace_of 3 150 64 (read_fs Ta.issue) 0

abbrev c : BlkIoTrace
c = trace_of 4 400 64 (read_fs Ta.complete) 0

-- One request, at sector 72
abbrev other : IoTrack
other = record junk { sector = 72 }

abbrev one : TrackTree
one = node null other null

one-IsTree : IsTree one
unfolding to_list
one-IsTree = (tt, tt)

life_lem_example :
    let l = life plain_ops plain_hash track_all junk g i d c one no_processes in
    (l.insert_elapsed ≡ 30)
    × (l.issue_elapsed ≡ 20)
    × (l.complete_elapsed ≡ 250)
    × IsTree l.root
    × ((q : ℕ) → tracked q l.root ≡ (if 64 == q then none else tracked q one))
life_lem_example =
    life_lem plain_ops plain_hash track_all refl junk g i d c one no_processes one-IsTree refl refl
      refl (omega arith) refl

log_track_complete_lem_example :
    ((log_track_complete plain_ops plain_hash track_all c one no_processes).0
      ≡ elim (tracked 64 one) [ none ↦ max64 | some x ↦ sub64 400 x.dispatch_time ])
    × IsTree (log_track_complete plain_ops plain_hash track_all c one no_processes).1
    × ((q : ℕ)
        → tracked q (log_track_complete plain_ops plain_hash track_all c one no_processes).1
          ≡ (if 64 == q then none else tracked q one))
log_track_complete_lem_example =
    log_track_complete_lem plain_ops plain_hash track_all refl c one no_processes one-IsTree

one-tracked : tracked (64 + t_sec c) one ≡ some other
unfolding tracked __find_track find_place size t_sec
one-tracked = refl

one-free : tracked 64 one ≡ none
unfolding tracked __find_track find_place size
one-free = refl

c-t_sec : 64 + t_sec c ≡ 72
unfolding t_sec
c-t_sec = refl

log_track_frontmerge_lem_example :
    IsTree (log_track_frontmerge plain_ops plain_hash track_all c one)
    × ((q : ℕ)
        → tracked q (log_track_frontmerge plain_ops plain_hash track_all c one) ≡ (
            if 64 == q
            then some (record other { sector = 64 })
            else (if (64 + t_sec c) == q then none else tracked q one)))
log_track_frontmerge_lem_example =
    log_track_frontmerge_lem plain_ops plain_hash track_all refl c other one one-IsTree
      (omega (arith, c-t_sec)) (omega (arith, c-t_sec)) one-tracked one-free

depths-dump_trace_example :
    depths false (dump_trace plain_ops plain_hash all_options machine none d idle)
    ≡ apply_change (seen plain_ops plain_hash all_options false d) (depths false idle)
depths-dump_trace_example =
    depths-dump_trace plain_ops plain_hash all_options false machine none d idle

dump_traces-peak_example :
    at_rw
      (dump_traces plain_ops plain_hash all_options none
        ((machine, d) ∷ (machine, c) ∷ [])
        idle).max_depth
      false
    ≡ max 0 (peak plain_ops plain_hash all_options false ((machine, d) ∷ (machine, c) ∷ []) 0)
dump_traces-peak_example =
    dump_traces-peak plain_ops plain_hash all_options false none ((machine, d) ∷ (machine, c) ∷ [])
      idle (omega arith)
