-- ===== src/Tests/Data.antt =====
-- Concrete traces and tables, and plain functions in place of rbtree.h and jhash.h.
use blktrace.Common.{
  ℕ, suc, ◌+◌, ◌*◌, ◌≡◌, refl, ap, true, false, List, [], ◌∷◌, get_elem?, replicate,
}
use blktrace.Trace.Record.{BlkIoTrace}
use blktrace.Trace.Tc
use blktrace.Parse.IoStats.{zero_stats}
use blktrace.Parse.Processes.{Processes, Hash}
use blktrace.Parse.RbTree.{Tree, null, node, to_list, erase_idx, RbOps}
use blktrace.Parse.Tracks.{IoTrack, TrackOptions}
use blktrace.Parse.Dump.{State, System, Options}

-- A trace of a version 7 file
abbrev pub trace_of : ℕ → ℕ → ℕ → ℕ → ℕ → BlkIoTrace
trace_of sequence time sector action cpu = record {
  magic = 0x65617407;
  sequence = sequence;
  time = time;
  sector = sector;
  bytes = 4096;
  action = action;
  pid = 42;
  device = 8388608;
  cpu = cpu;
  error = 0;
  pdu_len = 0;
  pdu = [];
}

abbrev pub read_fs : ℕ → ℕ
read_fs act = act + Tc.act Tc.read + Tc.act Tc.fs

abbrev pub write_fs : ℕ → ℕ
write_fs act = act + Tc.act Tc.write + Tc.act Tc.fs

-- A tree that leans to the right
abbrev pub spine : {A : Type 0} → List A → Tree A
spine [] = null
spine (x ∷ xs) = node null x (spine xs)

pub to_list-spine : {A : Type 0} (xs : List A) → to_list (spine xs) ≡ xs
unfolding to_list
to_list-spine [] = refl
to_list-spine (x ∷ xs) = ap (λ k. x ∷ k) (to_list-spine xs)

-- Trees that are never balanced
abbrev pub plain_ops : RbOps
plain_ops = record {
  rb_insert_color = λ i t. t;
  rb_erase = λ i t. spine (erase_idx i (to_list t));
  rb_first = λ t. get_elem? (to_list t) 0;
  rb_next = λ i t. get_elem? (to_list t) (suc i);
  rb_insert_color_lem = λ i t. refl;
  rb_erase_lem = λ i t. to_list-spine (erase_idx i (to_list t));
  rb_first_lem = λ t. refl;
  rb_next_lem = λ i t. refl;
}

abbrev sum_of : List ℕ → ℕ
sum_of [] = 0
sum_of (x ∷ xs) = x + 31 * sum_of xs

abbrev pub plain_hash : Hash
plain_hash = record { jhash_1word = λ a. a * 7; jhash = sum_of }

abbrev pub no_processes : Processes
no_processes = record {
  ppm_hash_table = replicate 256 [];
  ppis = [];
  ppi_hash_table = replicate 256 [];
  ppi_list = [];
  ppi_list_entries = 0;
}

abbrev pub track_all : TrackOptions
track_all = record { track_ios = true; per_process_stats = true; ppi_hash_by_pid = true }

abbrev pub junk : IoTrack
junk = record {
  ppm = record { pid = 9; comm = [] };
  sector = 1;
  allocation_time = 5;
  queue_time = 6;
  dispatch_time = 7;
  completion_time = 8;
}

abbrev pub all_options : Options
all_options = record { track = track_all; text_output = true; bin_output_msgs = false }

abbrev pub machine : System
machine = record { raw = junk; fwrite = true }

abbrev pub idle : State
idle = record {
  dev = 8388608;
  events = 0;
  first_reported_time = 0;
  cur_depth = record { reads = 0; writes = 0 };
  max_depth = record { reads = 0; writes = 0 };
  rb_track = null;
  io_stats = zero_stats;
  processes = no_processes;
  clock = record { start_timestamp = 0; tv_sec = 0; tv_nsec = 0 };
  have_drv_data = false;
  dump_binary = false;
  lines = [];
  binary = [];
}
