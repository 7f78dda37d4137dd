-- ===== src/Btreplay.antt =====
-- btreplay/btreplay.c: the two threads of one input file. replay_sub maps the packets of the bunches
-- to iocbs and submits them; replay_rec reclaims the iocbs. A step is what a thread does between two
-- points where the other may run; the file is replayed once. System calls are taken to succeed, and
-- what `verbose` prints and the time a stall takes are left out.
pub mod Threads
pub mod Mapping
pub mod Submit
pub mod Runs
pub mod Reclaim
pub mod Reached
pub mod Progress
pub mod Faults
pub mod Recorded
pub mod Measure
use blktrace.Common.{
  ℕ, ◌+◌, ◌-◌, ◌*◌, ◌%◌, ◌^◌, ◌≡◌, min, Bool, true, false, not, ◌&&◌, ◌||◌, Option, none, some,
  List, [], ◌∷◌, ◌++◌, map, if◌then◌else◌, ◌==◌, leb, ltb, length, take, drop,
}
use blktrace.Btrecord.{IoPkt, IoBunch, IoFileHdr, bt_max_pkts}

-- nb_sec
abbrev pub nb_sec : ℕ
nb_sec = 512

-- naios and write_enabled, as handle_args leaves them
pub record Settings : Type 0 where
  pub naios : ℕ
  pub write_enabled : Bool

-- The struct thr_info of one file: free_iocbs and used_iocbs are the lengths of the lists, and `ifd`
-- holds the bunches not read yet. `flight` counts the iocbs that the context `ctx` has and io_getevents
-- has not returned, `sent` has the packets given to io_submit, in order, and `signal_done` is the flag
-- that the signal handler sets.
pub record ThrInfo : Type 0 where
  pub free_iocbs : ℕ
  pub used_iocbs : ℕ
  pub naios_out : ℕ
  pub naios_free : ℕ
  pub send_wait : Bool
  pub reap_wait : Bool
  pub send_done : Bool
  pub reap_done : Bool
  pub ifd : List IoBunch
  pub flight : ℕ
  pub sent : List IoPkt
  pub signal_done : Bool

-- Where replay_sub is. The list in `at_loop` and later points is &bunch->pkts[i] on.
pub data Sub : Type 0 where
  -- before the loop over next_bunch tests its condition
  at_next : Sub
  -- before the loop of process_bunch tests its condition
  at_loop : List IoPkt → Sub
  -- before the loop of nfree_current tests its condition
  at_nfree : List IoPkt → Sub
  -- in pthread_cond_wait of nfree_current
  waiting : List IoPkt → Sub
  -- before the assert that follows, with ntodo
  at_map : ℕ → List IoPkt → Sub
  -- before io_submit, with `list`
  at_submit : List IoPkt → List IoPkt → Sub
  -- after io_submit, with ndone
  at_account : ℕ → List IoPkt → Sub
  -- after send_done = 1
  sub_done : Sub
  -- a failed assert or fatal()
  sub_failed : Sub

-- Where replay_rec is
pub data Rec : Type 0 where
  -- before is_reap_done at the start of reap_wait_aios
  at_test : Rec
  -- before the loop of reap_wait_aios tests its condition
  at_wait : Rec
  -- in pthread_cond_wait of reap_wait_aios
  asleep : Rec
  -- before the assert at the end of reap_wait_aios, with its naios
  at_return : ℕ → Rec
  -- before io_getevents of reclaim_ios, with naios_out
  at_events : ℕ → Rec
  -- after io_getevents, with naios_out and ndone
  at_move : ℕ → ℕ → Rec
  -- after reap_done = 1
  rec_done : Rec
  rec_failed : Rec

abbrev pub Point : Type 0
Point = Sub × Rec × ThrInfo

unfoldable pub is_send_done : ThrInfo → Bool
is_send_done tip = tip.signal_done || tip.send_done

unfoldable pub is_reap_done : ThrInfo → Bool
is_reap_done tip = tip.send_done && tip.naios_out == 0

-- pthread_cond_signal on tip->cond, where the flag of the waiting thread is set. The caller does not
-- wait, so at most one thread does.
unfoldable pub signal_sub : Sub → Bool → Sub
signal_sub (waiting pkts) true = at_nfree pkts
signal_sub sub send_wait = sub

unfoldable pub signal_rec : Rec → Bool → Rec
signal_rec asleep true = at_wait
signal_rec rec reap_wait = rec

-- What iocbs_map makes of a packet
unfoldable pub as_allowed : Settings → IoPkt → IoPkt
as_allowed o pkt = record pkt { rw = pkt.rw || not o.write_enabled }

-- The asserts of iocb_setup on a packet: n is an int and off a long long.
unfoldable pub setup_ok : IoPkt → Bool
setup_ok pkt =
    ltb 0 (pkt.nbytes % 2 ^ 32)
    && ltb (pkt.nbytes % 2 ^ 32) (2 ^ 31)
    && ((pkt.nbytes % 2 ^ 32) % nb_sec == 0)
    && ltb (pkt.sector * nb_sec % 2 ^ 64) (2 ^ 63)

unfoldable pub all_ok : List IoPkt → Bool
unfolding setup_ok
all_ok [] = true
all_ok (pkt ∷ pkts) = setup_ok pkt && all_ok pkts

-- tip_init, and the reading of the header in replay_sub's first iteration
unfoldable pub tip_init : Settings → List IoBunch → Point
tip_init o ifd = (
  at_next,
  at_test,
  record {
    free_iocbs = o.naios;
    used_iocbs = 0;
    naios_out = 0;
    naios_free = o.naios;
    send_wait = false;
    reap_wait = false;
    send_done = false;
    reap_done = false;
    ifd = ifd;
    flight = 0;
    sent = [];
    signal_done = false;
  },
)

-- add_input_file: whether the file is taken. A version that differs ends the program.
unfoldable pub add_input_file : IoFileHdr → Bool
add_input_file hdr = not (hdr.nbunches == 0)

-- The condition of the loop over next_bunch, next_bunch, and the first assert of process_bunch
unfoldable pub next_bunch : Rec → ThrInfo → Point
unfolding is_send_done
next_bunch rec tip =
    if is_send_done tip then (sub_done, rec, record tip { send_done = true }) else elim tip.ifd [
      | [] ↦ (sub_done, rec, record tip { send_done = true })
      | bunch ∷ ifd ↦
          if ltb 0 bunch.npkts && leb bunch.npkts bt_max_pkts && bunch.npkts == length bunch.pkts
          then (at_loop bunch.pkts, rec, record tip { ifd = ifd })
          else (sub_failed, rec, tip)
    ]

-- One turn of the loop of nfree_current; min takes its result and hdr.npkts - i.
unfoldable pub nfree_current : List IoPkt → Rec → ThrInfo → Point
unfolding is_send_done
nfree_current pkts rec tip =
    if is_send_done tip
    then (at_map (min 0 (length pkts)) pkts, rec, tip)
    else if tip.naios_free == 0
    then (waiting pkts, rec, record tip { send_wait = true })
    else (at_map (min tip.naios_free (length pkts)) pkts, rec, tip)

unfoldable pub iocbs_map : Settings → ℕ → List IoPkt → Rec → ThrInfo → Point
unfolding as_allowed all_ok
iocbs_map o ntodo pkts rec tip =
    if ltb 0 ntodo
      && leb ntodo o.naios
      && leb ntodo tip.free_iocbs
      && leb ntodo tip.naios_free
      && all_ok (take ntodo pkts)
    then (
      at_submit (map (as_allowed o) (take ntodo pkts)) (drop ntodo pkts),
      rec,
      record tip {
        free_iocbs = tip.free_iocbs - ntodo;
        used_iocbs = tip.used_iocbs + ntodo;
        naios_free = tip.naios_free - ntodo;
      },
    )
    else (sub_failed, rec, tip)

unfoldable pub io_submit : List IoPkt → List IoPkt → Rec → ThrInfo → Point
io_submit list pkts rec tip = (
  at_account (length list) pkts,
  rec,
  record tip { flight = tip.flight + length list; sent = tip.sent ++ list },
)

-- What process_bunch does under the mutex after io_submit
unfoldable pub account : Settings → ℕ → List IoPkt → Rec → ThrInfo → Point
unfolding signal_rec
account o ndone pkts rec tip =
    if leb (tip.naios_out + ndone) o.naios
    then (
      at_loop pkts,
      signal_rec rec tip.reap_wait,
      record tip { naios_out = tip.naios_out + ndone; reap_wait = false },
    )
    else (sub_failed, rec, tip)

-- A step of replay_sub, or `none` where it cannot go on
unfoldable pub replay_sub : Settings → Sub → Rec → ThrInfo → Option Point
unfolding is_send_done next_bunch nfree_current iocbs_map io_submit account
replay_sub o at_next rec tip = some (next_bunch rec tip)
replay_sub o (at_loop []) rec tip = some (at_next, rec, tip)
replay_sub o (at_loop (pkt ∷ pkts)) rec tip =
    some (if is_send_done tip then (at_next, rec, tip) else (at_nfree (pkt ∷ pkts), rec, tip))
replay_sub o (at_nfree pkts) rec tip = some (nfree_current pkts rec tip)
replay_sub o (waiting pkts) rec tip = none
replay_sub o (at_map ntodo pkts) rec tip = some (iocbs_map o ntodo pkts rec tip)
replay_sub o (at_submit list pkts) rec tip = some (io_submit list pkts rec tip)
replay_sub o (at_account ndone pkts) rec tip = some (account o ndone pkts rec tip)
replay_sub o sub_done rec tip = none
replay_sub o sub_failed rec tip = none

-- The end of replay_rec, with its assert
unfoldable pub finish : Sub → ThrInfo → Point
finish sub tip =
    if tip.send_done
    then (sub, rec_done, record tip { reap_done = true })
    else (sub, rec_failed, tip)

-- io_getevents gives `ndone` events, at least one, and blocks while there is none.
unfoldable pub io_getevents : ℕ → ℕ → Sub → ThrInfo → Option Point
io_getevents ndone naios_out sub tip =
    if ltb 0 ndone && leb ndone naios_out && leb ndone tip.flight
    then some (sub, at_move naios_out ndone, record tip { flight = tip.flight - ndone })
    else none

-- What reclaim_ios does under the mutex, and whether it starts again
unfoldable pub reclaim_ios : ℕ → ℕ → Sub → ThrInfo → Point
unfolding signal_sub
reclaim_ios naios_out ndone sub tip =
    let left = min naios_out (tip.naios_out - ndone) in
    (
      signal_sub sub tip.send_wait,
      (if left == 0 then at_test else at_events left),
      record tip {
        free_iocbs = tip.free_iocbs + ndone;
        used_iocbs = tip.used_iocbs - ndone;
        naios_free = tip.naios_free + ndone;
        naios_out = tip.naios_out - ndone;
        send_wait = false;
      },
    )

-- A step of replay_rec; `ndone` is what io_getevents would return.
unfoldable pub replay_rec : ℕ → Sub → Rec → ThrInfo → Option Point
unfolding is_reap_done finish io_getevents reclaim_ios
replay_rec ndone sub at_test tip =
    some (if is_reap_done tip then finish sub tip else (sub, at_wait, tip))
replay_rec ndone sub at_wait tip = some (
    if tip.naios_out == 0
    then (sub, asleep, record tip { reap_wait = true })
    else (sub, at_return tip.naios_out, tip))
replay_rec ndone sub asleep tip = none
replay_rec ndone sub (at_return naios) tip = some (
    if is_reap_done tip
    then finish sub tip
    else if ltb 0 naios
    then (sub, at_events naios, tip)
    else (sub, rec_failed, tip))
replay_rec ndone sub (at_events naios_out) tip = io_getevents ndone naios_out sub tip
replay_rec ndone sub (at_move naios_out n) tip = some (reclaim_ios naios_out n sub tip)
replay_rec ndone sub rec_done tip = none
replay_rec ndone sub rec_failed tip = none

-- A step of one of the threads
pub data Step (o : Settings) (s t : Point) : Type 0 where
  by_sub : replay_sub o s.0 s.1 s.2 ≡ some t → Step o s t
  by_rec : (ndone : ℕ) → replay_rec ndone s.0 s.1 s.2 ≡ some t → Step o s t

-- A thread wakes up with no signal on the condition, as pthread_cond_wait may.
unfoldable pub wake_sub : Point → Point
unfolding signal_sub
wake_sub (sub, rec, tip) = (signal_sub sub true, rec, tip)

unfoldable pub wake_rec : Point → Point
unfolding signal_rec
wake_rec (sub, rec, tip) = (sub, signal_rec rec true, tip)

-- set_signal_done
unfoldable pub set_signal_done : Point → Point
set_signal_done (sub, rec, tip) = (sub, rec, record tip { signal_done = true })

-- What may be reached from `s`, with wakings and signals at any time
pub data Reach (o : Settings) (s : Point) : Point → Type 0 where
  start : Reach o s s
  by_step : {t u : Point} → Reach o s t → Step o t u → Reach o s u
  by_waking_sub : {t : Point} → Reach o s t → Reach o s (wake_sub t)
  by_waking_rec : {t : Point} → Reach o s t → Reach o s (wake_rec t)
  by_signal : {t : Point} → Reach o s t → Reach o s (set_signal_done t)
