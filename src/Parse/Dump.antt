-- ===== src/Parse/Dump.antt =====
-- dump_trace of blkparse.c, which hands a trace to the statistics, the tracking and the output by
-- its action. The formatting of a line (process_fmt) is not modelled: a line is what it is given.
pub mod Depth
use blktrace.Common.{
  ℕ, ◌+◌, ◌-◌, ◌%◌, ◌^◌, Bool, true, false, not, ◌&&◌, ◌||◌, Option, none, some, List, [], ◌∷◌,
  ◌++◌, if◌then◌else◌, ◌==◌, ltb, add32, add64, max64, has_bits, get_or,
}
use blktrace.Trace.Record.{BlkIoTrace}
use blktrace.Trace.Header.{Native}
use blktrace.Trace.Tc
use blktrace.Trace.Ta
use blktrace.Parse.IoStats.{IoStats}
use blktrace.Parse.Account.{
  account_m, account_pc_queue, account_pc_issue, account_pc_requeue, account_pc_c, account_queue,
  account_c, account_issue, account_unplug, account_requeue,
}
use blktrace.Parse.Processes.{Processes, Hash, Pair, at_rw, set_rw, account_process}
use blktrace.Parse.RbTree.{RbOps}
use blktrace.Parse.Tracks.{
  IoTrack, TrackTree, TrackOptions, is_write, log_track_frontmerge, log_track_getrq,
  log_track_queue, log_track_insert, log_track_issue, log_track_complete,
}
use blktrace.Parse.Notify.{Clock, handle_notify}

-- A line of output: what process_fmt is called with, or a message.
pub data Line : Type 0 where
  action : (act : List ℕ) (elapsed pdu_len : ℕ) → Line
  message : List ℕ → Line

-- The static options
pub record Options : Type 0 where
  pub track : TrackOptions
  pub text_output : Bool
  pub bin_output_msgs : Bool

-- The fields of struct per_dev_info that dump_trace reads or writes, with the io_stats of the
-- CPU's struct per_cpu_info and the static tables. `binary` is what went to dump_fp.
pub record State : Type 0 where
  pub dev : ℕ
  pub events : ℕ
  pub first_reported_time : ℕ
  pub cur_depth : Pair
  pub max_depth : Pair
  pub rb_track : TrackTree
  pub io_stats : IoStats
  pub processes : Processes
  pub clock : Clock
  pub have_drv_data : Bool
  pub dump_binary : Bool
  pub lines : List Line
  pub binary : List BlkIoTrace

-- What the system calls of one step give: the memory that malloc returns, and whether fwrite works.
pub record System : Type 0 where
  pub raw : IoTrack
  pub fwrite : Bool

-- process_fmt(act, pci, t, elapsed, pdu_len, ...)
unfoldable pub process_fmt : List ℕ → ℕ → ℕ → State → State
process_fmt act elapsed pdu_len st = record st {
  lines = st.lines ++ action act elapsed pdu_len ∷ [];
}

-- log_queue, log_action, log_generic, log_unplug and log_split: an elapsed time of -1
unfoldable pub log_generic : List ℕ → State → State
unfolding process_fmt
log_generic act st = process_fmt act max64 0 st

unfoldable pub log_pc : List ℕ → BlkIoTrace → State → State
unfolding process_fmt
log_pc act t st = process_fmt act max64 t.pdu_len st

-- if (pdi->cur_depth[w]) pdi->cur_depth[w]--
unfoldable pub depth_down : Bool → State → State
depth_down w st =
    if at_rw st.cur_depth w == 0
    then st
    else record st { cur_depth = set_rw st.cur_depth w (at_rw st.cur_depth w - 1) }

-- pdi->cur_depth[w]++, and the new maximum
unfoldable pub depth_up : Bool → State → State
depth_up w st =
    let depth = add32 (at_rw st.cur_depth w) 1 in
    record st {
      cur_depth = set_rw st.cur_depth w depth;
      max_depth =
          if ltb (at_rw st.max_depth w) depth then set_rw st.max_depth w depth else st.max_depth;
    }

module _ (ops : RbOps) (hash : Hash) (opts : Options) where
  -- account_* from __account_*: the statistics of the CPU, and of the process if they are kept
  unfoldable pub account : BlkIoTrace → (IoStats → IoStats) → State → State
  unfolding account_process
  account t f st = record st {
    io_stats = f st.io_stats;
    processes =
        if opts.track.per_process_stats
        then account_process hash opts.track.ppi_hash_by_pid t.pid f st.processes
        else st.processes;
  }

  -- log_insert, log_issue and log_complete, with the values of log_track_*
  unfoldable pub log_tracked : List ℕ → ℕ × TrackTree × Processes → State → State
  unfolding process_fmt
  log_tracked act (elapsed, root, ps) st =
      process_fmt act elapsed 0 (record st { rb_track = root; processes = ps })

  unfoldable pub log_insert : System → BlkIoTrace → List ℕ → State → State
  unfolding log_tracked log_track_insert
  log_insert sys t act st =
      log_tracked act (log_track_insert ops hash opts.track sys.raw t st.rb_track st.processes) st

  unfoldable pub log_issue : BlkIoTrace → List ℕ → State → State
  unfolding log_tracked log_track_issue
  log_issue t act st =
      log_tracked act (log_track_issue ops hash opts.track t st.rb_track st.processes) st

  unfoldable pub log_complete : BlkIoTrace → List ℕ → State → State
  unfolding log_tracked log_track_complete
  log_complete t act st =
      log_tracked act (log_track_complete ops hash opts.track t st.rb_track st.processes) st

  -- log_merge: act[0] == 'F' is a merge at the front.
  unfoldable pub log_merge : BlkIoTrace → List ℕ → State → State
  unfolding log_generic log_track_frontmerge
  log_merge t act st = log_generic act (
      if get_or act 0 0 == 70
      then record st { rb_track = log_track_frontmerge ops hash opts.track t st.rb_track }
      else st)

  -- An assignment of the tree and the tables that a log_track_* function returns
  unfoldable pub tracking : TrackTree × Processes → State → State
  tracking (root, ps) st = record st { rb_track = root; processes = ps }

  -- The letters: Q 81, G 71, S 83, R 82, D 68, C 67, I 73.
  unfoldable pub dump_trace_pc : BlkIoTrace → State → State
  unfolding log_generic log_pc account depth_down depth_up account_pc_queue account_pc_issue
      account_pc_requeue account_pc_c is_write
  dump_trace_pc t st =
      let w = is_write t in
      let act = t.action % 2 ^ 16 in
      if act == Ta.queue
      then account t (λ ios. account_pc_queue ios t w) (log_generic (81 ∷ []) st)
      else if act == Ta.getrq
      then log_generic (71 ∷ []) st
      else if act == Ta.sleeprq
      then log_generic (83 ∷ []) st
      else if act == Ta.requeue
      then log_generic (82 ∷ []) (account t (λ ios. account_pc_requeue ios t w) (depth_down w st))
      else if act == Ta.issue
      then log_pc (68 ∷ []) t (depth_up w (account t (λ ios. account_pc_issue ios t.bytes w) st))
      else if act == Ta.complete
      then account t (λ ios. account_pc_c ios w) (log_pc (67 ∷ []) t (depth_down w st))
      else if act == Ta.insert
      then log_pc (73 ∷ []) t st
      else st

  -- The letters: Q 81, I 73, M 77, F 70, G 71, S 83, R 82, D 68, C 67, P 80, U 85, T 84, X 88, B 66,
  -- A 65.
  unfoldable pub dump_trace_fs : System → BlkIoTrace → State → State
  unfolding log_generic log_insert log_issue log_complete log_merge account depth_down depth_up
      account_m account_queue account_c account_issue account_unplug account_requeue is_write
      tracking log_track_queue log_track_getrq
  dump_trace_fs sys t st =
      let w = is_write t in
      let act = t.action % 2 ^ 16 in
      if act == Ta.queue
      then log_generic (81 ∷ []) (
          account t (λ ios. account_queue ios t w)
            (tracking
              (log_track_queue ops hash opts.track st.dev sys.raw t st.rb_track st.processes) st))
      else if act == Ta.insert
      then log_insert sys t (73 ∷ []) st
      else if act == Ta.backmerge
      then log_merge t (77 ∷ []) (account t (λ ios. account_m ios t w) st)
      else if act == Ta.frontmerge
      then log_merge t (70 ∷ []) (account t (λ ios. account_m ios t w) st)
      else if act == Ta.getrq
      then log_generic (71 ∷ [])
          (tracking (log_track_getrq ops hash opts.track sys.raw t st.rb_track st.processes) st)
      else if act == Ta.sleeprq
      then log_generic (83 ∷ []) st
      else if act == Ta.requeue
      then log_generic (82 ∷ []) (account t (λ ios. account_requeue ios t w) (depth_down w st))
      else if act == Ta.issue
      then log_issue t (68 ∷ []) (depth_up w (account t (λ ios. account_issue ios t.bytes w) st))
      else if act == Ta.complete
      then log_complete t (67 ∷ []) (account t (λ ios. account_c ios t.bytes w) (depth_down w st))
      else if act == Ta.plug
      then log_generic (80 ∷ []) st
      else if act == Ta.unplug_io
      then log_generic (85 ∷ []) (account t (λ ios. account_unplug ios false) st)
      else if act == Ta.unplug_timer
      then log_generic (85 ∷ 84 ∷ []) (account t (λ ios. account_unplug ios true) st)
      else if act == Ta.split
      then log_generic (88 ∷ []) st
      else if act == Ta.bounce
      then log_generic (66 ∷ []) st
      else if act == Ta.remap
      then log_generic (65 ∷ []) st
      else if act == Ta.drv_data
      then record st { have_drv_data = true }
      else st

  -- The call of handle_notify
  unfoldable pub notify : Native → BlkIoTrace → State → State
  unfolding handle_notify
  notify native t st =
      let (ps, clock, text) = handle_notify hash native t st.processes st.clock in
      record st {
        processes = ps;
        clock = clock;
        lines = elim text [ none ↦ st.lines | some m ↦ st.lines ++ message m ∷ [] ];
      }

  -- output_binary: a failed fwrite ends the binary output.
  unfoldable pub output_binary : System → BlkIoTrace → State → State
  output_binary sys t st =
      if st.dump_binary
      then (if sys.fwrite
          then record st { binary = st.binary ++ t ∷ [] }
          else record st { dump_binary = false })
      else st

  -- The count of events, with the time of the first
  unfoldable pub count_event : BlkIoTrace → State → State
  count_event t st = record st {
    first_reported_time = if st.events == 0 then t.time else st.first_reported_time;
    events = add64 st.events 1;
  }

  -- The branches of `if (text_output)`
  unfoldable pub dump_text : System → Native → BlkIoTrace → State → State
  unfolding notify dump_trace_pc dump_trace_fs
  dump_text sys native t st =
      if not opts.text_output
      then st
      else if t.action == Ta.notify_message
      then notify native t st
      else if has_bits t.action (Tc.act Tc.pc)
      then dump_trace_pc t st
      else dump_trace_fs sys t st

  unfoldable pub dump_trace : System → Native → BlkIoTrace → State → State
  unfolding dump_text count_event output_binary
  dump_trace sys native t st =
      let st' = count_event t (dump_text sys native t st) in
      if opts.bin_output_msgs
        || not (has_bits t.action (Tc.act Tc.notify) && (t.action == Ta.notify_message))
      then output_binary sys t st'
      else st'
