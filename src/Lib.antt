-- ===== src/Lib.antt =====
-- A model of blktrace, the tracing tools for Linux block devices, and its properties.
--
-- The kernel writes one stream of trace records (struct blk_io_trace) for each CPU; blktrace saves
-- them in files, and the other programs read these. Modelled are blkparse, which merges the streams
-- by time and reports on them, the monitor blkiomon, the checker blkrawverify, btrecord, which
-- makes bunches of IOs of the traces, btreplay, which sends these IOs again, and parts of the analyser
-- btt, and the analysis of a trace by iowatcher.
--
-- - Trace: blktrace_api.h and blktrace.h. Record is struct blk_io_trace, Tc and Ta its constants,
--   Header the checks and the conversion from the other byte order (verify_trace, trace_to_cpu,
--   check_data_endianness).
-- - ActMask: act_mask.c.
-- - Parse: blkparse.c. A call that changes static or shared state returns the new state.
--   . Streams: ms_prime, ms_sort, ms_resort, ms_deq and ms_alloc, on the unread rest of each file;
--     Setup has the loops of do_file, which give the traces in turn to handle.
--   . Handle: handle, with the stopwatch and the mask of actions.
--   . Skips: insert_skip, check_current_skips and collect_pdi_skips, on the list from head to tail.
--   . Sorting: trace_rb_insert and trace_rb_find.
--   . IoStats and Account: struct io_stats and the functions __account_*.
--   . Processes: the tables of names and of statistics by process.
--   . Tracks: struct io_track and the functions log_track_*.
--   . Notify and Dump: handle_notify, and dump_trace, which calls the statistics, the tracking and
--     the output by the action of a trace.
--   . Rwbs: fill_rwbs of blkparse_fmt.c.
-- - Iomon: stats.h, blkiomon.h and blkiomon.c. Histogram and Merge are about the summaries; Devices has
--   the trees of statistics by device (blkiomon_get_dstat, blkiomon_account) and blkiomon_interval;
--   Matching has thash with blkiomon_fetch_trace, blkiomon_store_trace and blkiomon_do_trace, and
--   Fifo the loop of blkiomon_do_fifo, which calls them.
-- - Iowatcher: iowatcher/blkparse.c. Pending is io_hash_table with its operations; Lines has the
--   functions add_* for the line graphs, and the loop of read_trace_events (iowatcher/main.c) that
--   calls them; Devices has map_devices and map_io.
-- - RawVerify: the function process of blkrawverify.c.
-- - Btrecord: btreplay/btrecord.c, from the traces of a file to its bunches.
-- - Btreplay: btreplay/btreplay.c, the two threads of a file. Every point where a thread can be between
--   two steps is a constructor of Sub or Rec; a step is a call of replay_sub or replay_rec, which are
--   none where the thread is blocked, and Reach has all orders of the steps, with wakings of the
--   condition and signals. Threads has the invariant; Mapping, Submit, Reclaim and Reached are
--   its proof. Progress is about where both stop, Measure and Runs about when, Faults about two
--   orders of events that end badly, and Recorded joins btrecord and btreplay.
-- - Btt: parts of btt. PLive is p_live.c; Inlines is inlines.h; IoTree is dip_rb.c; Seek is
--   seek.c, but for its output.
-- - Tests: the theorems at concrete inputs, with plain functions for the parameters.
--
-- Numbers are those of the native type; a word of w bits wraps at 2 ^ w where the code's does.
-- The host has the low byte first. rbtree.c and jhash.h are copies from the kernel: their functions
-- are parameters (Parse/RbTree.RbOps, Parse/Processes.Hash), of which the order of the nodes of a
-- tree is all that is assumed. What malloc returns uninitialised, and whether fwrite succeeds, are
-- arguments. Fuel is used in three places: one unit for each trace in the main loop of do_file and in
-- that of btrecord, and one for each interval of the tree in p_live.c; that it is enough is part of
-- their theorems. The loop of do_file is modelled without an interruption by a signal. The system
-- calls of btreplay are taken to succeed: io_submit takes all it is given, and io_getevents returns
-- one event at least, and no more than it is asked for and there are. blkiomon's memory is always
-- there, and its two threads change the statistics in turns. The averages of iowatcher are quotients,
-- which its doubles are for sums below 2 ^ 53; what C leaves open for 0 / 0 is an argument.
--
-- Not modelled: the capture of traces by blktrace.c (threads and system calls), the text of a line
-- (the rest of blkparse_fmt.c), the reading from a pipe, the program verify_blkparse, the drawing of
-- iowatcher and its dots by process, options and reports; of btreplay the barriers between the files
-- and the stalls, and of btt the handlers of traces and all that is computed in doubles.
pub mod Common
pub mod Trace
pub mod ActMask
pub mod Parse
pub mod Iomon
pub mod Iowatcher
pub mod RawVerify
pub mod Btrecord
pub mod Btreplay
pub mod Btt
pub mod Tests
