-- ===== src/Tests/Streams.antt =====
-- Two files of two CPUs, merged.
use mathlib.Core.List.{Perm}
use blktrace.Common.{ℕ, ◌≡◌, ◌≢◌, refl, true, some, List, [], ◌∷◌, arith, length}
use blktrace.Trace.Record.{BlkIoTrace}
use blktrace.Trace.Header.{verify_trace, check_magic, trace_to_cpu}
use blktrace.Trace.Ta
use blktrace.Parse.RbTree.{null, node, to_list}
use blktrace.Parse.Sorting.{Trace, trace_rb_insert}
use blktrace.Parse.Sorting.Laws.{Placed, InOrder, trace_rb_insert-Placed}
use blktrace.Parse.Handle.{Stopwatch, handle_loop}
use blktrace.Parse.Handle.Window.{window, handle_loop-window}
use blktrace.Parse.Streams.{File, Reader, MsStream, judge, is_notify, foreign, trace}
use blktrace.Parse.Streams.Read.{accepts}
use blktrace.Parse.Streams.Merge.{InTimeOrder}
use blktrace.Parse.Streams.Setup.{Input, do_file, contents, AllGood, do_file-sorted}
use blktrace.Tests.Data.{trace_of, read_fs, write_fs, plain_ops}

abbrev t1 : BlkIoTrace
t1 = trace_of 1 100 64 (read_fs Ta.queue) 0

abbrev t2 : BlkIoTrace
t2 = trace_of 2 300 64 (read_fs Ta.getrq) 0

abbrev t3 : BlkIoTrace
t3 = trace_of 3 200 80 (write_fs Ta.queue) 1

abbrev file0 : File
file0 = (t1, true) ∷ (t2, true) ∷ []

abbrev file1 : File
file1 = (t3, true) ∷ []

abbrev inputs : List Input
inputs = record { pdi = 0; cpu = 0; file = file0 } ∷ record { pdi = 0; cpu = 1; file = file1 } ∷ []

abbrev reader : Reader
reader = record { native = some true; last_read_time = 0 ∷ []; notified = [] }

trace-foreign : (t : BlkIoTrace) → trace t ≢ foreign
trace-foreign t e = cc

judged :
    (cpu : ℕ) (t : BlkIoTrace)
    → judge (some true) cpu (t, true) ≡ trace t
    → judge (some true) cpu (t, true) ≢ foreign
judged cpu t e = rw e (trace-foreign t)

t1-judge : judge (some true) 0 (t1, true) ≡ trace t1
unfolding judge check_magic verify_trace trace_to_cpu is_notify
t1-judge = refl

t2-judge : judge (some true) 0 (t2, true) ≡ trace t2
unfolding judge check_magic verify_trace trace_to_cpu is_notify
t2-judge = refl

t3-judge : judge (some true) 1 (t3, true) ≡ trace t3
unfolding judge check_magic verify_trace trace_to_cpu is_notify
t3-judge = refl

file0-accepts : accepts true 0 file0 ≡ t1 ∷ t2 ∷ []
unfolding accepts judge check_magic verify_trace trace_to_cpu is_notify
file0-accepts = refl

file1-accepts : accepts true 1 file1 ≡ t3 ∷ []
unfolding accepts judge check_magic verify_trace trace_to_cpu is_notify
file1-accepts = refl

inputs-AllGood : AllGood true inputs
inputs-AllGood = (
  (judged 0 t1 t1-judge, (judged 0 t2 t2-judge, tt)),
  rw file0-accepts (((omega arith, tt), (tt, tt))),
  ((judged 1 t3 t3-judge, tt), rw file1-accepts (tt, tt), tt),
)

contents-length : length (contents true inputs) ≡ 3
unfolding contents
contents-length = rw (file0-accepts, file1-accepts) refl

do_file-sorted_example :
    Perm (do_file 3 1 reader inputs) (contents true inputs)
    × InTimeOrder (do_file 3 1 reader inputs)
do_file-sorted_example =
    do_file-sorted true 1 (omega arith) reader inputs 3 refl inputs-AllGood
      (omega (arith, contents-length))

abbrev stream : MsStream
stream = record { pdi = 0; cpu = 0; first = []; fd = some file0 }

abbrev first : Trace
first = record { bit = t1; read_sequence = 0 }

abbrev second : Trace
second = record { bit = t3; read_sequence = 0 }

trace_rb_insert-Placed_example :
    Placed second
      (to_list (node null first null))
      (to_list (trace_rb_insert plain_ops second (node null first null)))
    × InOrder (to_list (trace_rb_insert plain_ops second (node null first null)))
trace_rb_insert-Placed_example =
    trace_rb_insert-Placed plain_ops second (node null first null) (unfold to_list in (tt, tt))

abbrev watch : Stopwatch
watch = record { genesis_time = 100; stopwatch_start = 0; stopwatch_end = 150; act_mask = 65535 }

handle_loop-window_example :
    handle_loop watch (t1 ∷ t3 ∷ t2 ∷ []) ≡ window watch (t1 ∷ t3 ∷ t2 ∷ [])
handle_loop-window_example =
    handle_loop-window watch (t1 ∷ t3 ∷ t2 ∷ [])
      ((omega arith, (omega arith, tt)), ((omega arith, tt), (tt, tt)))
      (
        (omega arith, omega arith, omega arith),
        ((omega arith, omega arith, omega arith), ((omega arith, omega arith, omega arith), tt)),
      )
