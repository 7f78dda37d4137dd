-- ===== src/Iowatcher.antt =====
-- The analysis of a trace by iowatcher: iowatcher/blkparse.c, with the data of the graphs that
-- iowatcher/plot.h declares.
pub mod Pending
pub mod Lines
pub mod Devices
use blktrace.Common.{
  ℕ, ◌/◌, ◌%◌, ◌^◌, Bool, true, not, Option, none, some, if◌then◌else◌, ◌==◌, has_bits, bit_and,
}
use blktrace.Trace.Record.{BlkIoTrace}
use blktrace.Trace.Tc
use blktrace.Trace.Ta

-- The test of a notify trace, which most functions begin with
unfoldable pub is_notify_event : BlkIoTrace → Bool
is_notify_event io = has_bits io.action (Tc.act Tc.notify)

-- io->action & BLK_TA_MASK
unfoldable pub masked : BlkIoTrace → ℕ
masked io = io.action % 2 ^ 16

-- BLK_DATADIR(a)
unfoldable pub datadir : ℕ → ℕ
datadir a = bit_and (a / 2 ^ 16) 3

-- The events that have been found in the trace: found_completion, found_issue and found_queue of
-- struct trace
pub record Found : Type 0 where
  pub completion : Bool
  pub issue : Bool
  pub queue : Bool

-- check_io_types
unfoldable pub check_io_types : BlkIoTrace → Found → Found
unfolding is_notify_event masked
check_io_types io found =
    if is_notify_event io
    then found
    else if masked io == Ta.complete
    then record found { completion = true }
    else if masked io == Ta.issue
    then record found { issue = true }
    else if masked io == Ta.queue
    then record found { queue = true }
    else found

-- tput_event
unfoldable pub tput_event : Found → ℕ
tput_event found =
    if found.completion
    then Ta.complete
    else if found.issue
    then Ta.issue
    else if found.queue
    then Ta.queue
    else Ta.complete

-- io_event, with plot_io_action, 0 where no action was chosen
unfoldable pub io_event : ℕ → Found → ℕ
io_event plot_io_action found =
    if not (plot_io_action == 0)
    then plot_io_action
    else if found.queue
    then Ta.queue
    else if found.issue
    then Ta.issue
    else if found.completion
    then Ta.complete
    else Ta.complete

-- action_char_to_num; `none` is -1.
unfoldable pub action_char_to_num : ℕ → Option ℕ
action_char_to_num action =
    if action == 81
    then some Ta.queue
    else if action == 68
    then some Ta.issue
    else if action == 67
    then some Ta.complete
    else none
