-- ===== src/Btreplay/Measure.antt =====
-- Each step of the two threads of btreplay leaves less to do.
use blktrace.Common.{
  ℕ, ◌+◌, ◌-◌, ◌*◌, ◌≤◌, ◌<◌, ◌≡◌, refl, ap, min, Bool, true, false, ◌&&◌, Option, none, some, List,
  [], ◌∷◌, map, inl, inr, if◌then◌else◌, ltb, leb, ◌==◌, length, take, drop, length-take,
  length-drop, length-map, Bool-cases, arith,
}
use blktrace.Btrecord.{IoPkt, IoBunch, bt_max_pkts}
use blktrace.Btreplay.{
  Settings, ThrInfo, Sub, at_next, at_loop, at_nfree, waiting, at_map, at_submit, at_account,
  sub_done, sub_failed, Rec, at_test, at_wait, asleep, at_return, at_events, at_move, rec_done,
  rec_failed, Point, all_ok, as_allowed, is_send_done, is_reap_done, signal_sub, signal_rec,
  next_bunch, nfree_current, iocbs_map, io_submit, account, finish, reclaim_ios, io_getevents,
  replay_sub, replay_rec,
}
use blktrace.Btreplay.Threads.{pending, mapped, Consistent}
use blktrace.Btreplay.Reclaim.{signal_sub-Signalled}

-- The packets of the bunches
unfoldable pub load : List IoBunch → ℕ
load [] = 0
load (b ∷ bs) = length b.pkts + load bs

-- The steps that a thread can make before it has work again or hands some over
abbrev sub_rank : Sub → ℕ
sub_rank at_next = 1
sub_rank (at_loop l) = 6
sub_rank (at_nfree l) = 5
sub_rank (waiting l) = 0
sub_rank (at_map n l) = 4
sub_rank (at_submit l m) = 3
sub_rank (at_account n l) = 2
sub_rank sub_done = 0
sub_rank sub_failed = 0

abbrev rec_rank : Rec → ℕ
rec_rank at_test = 5
rec_rank at_wait = 4
rec_rank asleep = 0
rec_rank (at_return k) = 3
rec_rank (at_events k) = 2
rec_rank (at_move k n) = 1
rec_rank rec_done = 0
rec_rank rec_failed = 0

abbrev pub measure : Point → ℕ
measure (sub, rec, tip) =
    20 * (length (pending sub) + mapped sub + load tip.ifd)
    + 10 * tip.naios_out
    + 6 * length tip.ifd
    + sub_rank sub
    + rec_rank rec

if_less :
    (m : ℕ) (c : Bool) (s t : Point)
    → measure s < m
    → measure t < m
    → measure (if c then s else t) < m
if_less m true s t h k = h
if_less m false s t h k = k

-- What a step leaves is less than `m`.
abbrev pub Falls : ℕ → Option Point → Type 0
Falls m none = Unit
Falls m (some s) = measure s < m

module _ (o : Settings) where
  next_bunch-Falls :
      (rec : Rec) (tip : ThrInfo) → measure (next_bunch rec tip) < measure (at_next, rec, tip)
  unfolding next_bunch load
  next_bunch-Falls rec tip =
      if_less (measure (at_next, rec, tip)) (is_send_done tip) _ _ (omega arith) (go tip.ifd refl)
    where
      later : List IoBunch → Point
      later ifd = elim ifd [
        | [] ↦ (sub_done, rec, record tip { send_done = true })
        | bunch ∷ bs ↦
            if ltb 0 bunch.npkts && leb bunch.npkts bt_max_pkts && bunch.npkts == length bunch.pkts
            then (at_loop bunch.pkts, rec, record tip { ifd = bs })
            else (sub_failed, rec, tip)
      ]

      go : (ifd : List IoBunch) → tip.ifd ≡ ifd → measure (later ifd) < measure (at_next, rec, tip)
      go [] e = omega arith
      go (b ∷ bs) e =
          if_less (measure (at_next, rec, tip))
            (ltb 0 b.npkts && leb b.npkts bt_max_pkts && b.npkts == length b.pkts)
            (at_loop b.pkts, rec, record tip { ifd = bs }) (sub_failed, rec, tip)
            (omega (arith, ap load e, ap length e)) (omega arith)

  nfree_current-Falls :
      (pkts : List IoPkt) (rec : Rec) (tip : ThrInfo)
      → measure (nfree_current pkts rec tip) < measure (at_nfree pkts, rec, tip)
  unfolding nfree_current
  nfree_current-Falls pkts rec tip =
      if_less _ (is_send_done tip) _ _ (omega arith)
        (if_less _ (tip.naios_free == 0) _ _ (omega arith) (omega arith))

  iocbs_map-Falls :
      (n : ℕ) (pkts : List IoPkt) (rec : Rec) (tip : ThrInfo)
      → n ≤ length pkts
      → measure (iocbs_map o n pkts rec tip) < measure (at_map n pkts, rec, tip)
  unfolding iocbs_map
  iocbs_map-Falls n pkts rec tip le =
      if_less (measure (at_map n pkts, rec, tip))
        (ltb 0 n
          && leb n o.naios
          && leb n tip.free_iocbs
          && leb n tip.naios_free
          && all_ok (take n pkts))
        (
          at_submit (map (as_allowed o) (take n pkts)) (drop n pkts),
          rec,
          record tip {
            free_iocbs = tip.free_iocbs - n;
            used_iocbs = tip.used_iocbs + n;
            naios_free = tip.naios_free - n;
          },
        )
        (sub_failed, rec, tip)
        (omega (
          arith,
          length-map (take n pkts) (as_allowed o),
          length-take n pkts,
          length-drop n pkts,
          le,
        ))
        (omega arith)

  rank-signal_rec : (rec : Rec) (wait : Bool) → rec_rank (signal_rec rec wait) ≤ 4 + rec_rank rec
  unfolding signal_rec
  rank-signal_rec at_test wait = omega arith
  rank-signal_rec at_wait wait = omega arith
  rank-signal_rec asleep true = omega arith
  rank-signal_rec asleep false = omega arith
  rank-signal_rec (at_return k) wait = omega arith
  rank-signal_rec (at_events k) wait = omega arith
  rank-signal_rec (at_move k n) wait = omega arith
  rank-signal_rec rec_done wait = omega arith
  rank-signal_rec rec_failed wait = omega arith

  rank-signal_sub : (sub : Sub) (wait : Bool) → sub_rank (signal_sub sub wait) ≤ 5 + sub_rank sub
  unfolding signal_sub
  rank-signal_sub at_next wait = omega arith
  rank-signal_sub (at_loop l) wait = omega arith
  rank-signal_sub (at_nfree l) wait = omega arith
  rank-signal_sub (waiting l) true = omega arith
  rank-signal_sub (waiting l) false = omega arith
  rank-signal_sub (at_map n l) wait = omega arith
  rank-signal_sub (at_submit l m) wait = omega arith
  rank-signal_sub (at_account n l) wait = omega arith
  rank-signal_sub sub_done wait = omega arith
  rank-signal_sub sub_failed wait = omega arith

  account-Falls :
      (n : ℕ) (pkts : List IoPkt) (rec : Rec) (tip : ThrInfo)
      → 0 < n
      → measure (account o n pkts rec tip) < measure (at_account n pkts, rec, tip)
  unfolding account
  account-Falls n pkts rec tip h =
      if_less (measure (at_account n pkts, rec, tip)) (leb (tip.naios_out + n) o.naios)
        (
          at_loop pkts,
          signal_rec rec tip.reap_wait,
          record tip { naios_out = tip.naios_out + n; reap_wait = false },
        )
        (sub_failed, rec, tip) (omega (arith, rank-signal_rec rec tip.reap_wait, h)) (omega arith)

  pub replay_sub-Falls :
      (sub : Sub) (rec : Rec) (tip : ThrInfo) (file : List IoBunch)
      → Consistent o file sub rec tip
      → Falls (measure (sub, rec, tip)) (replay_sub o sub rec tip)
  unfolding replay_sub io_submit
  replay_sub-Falls at_next rec tip file v = next_bunch-Falls rec tip
  replay_sub-Falls (at_loop []) rec tip file v = omega arith
  replay_sub-Falls (at_loop (p ∷ l)) rec tip file v =
      if_less _ (is_send_done tip) _ _ (omega arith) (omega arith)
  replay_sub-Falls (at_nfree l) rec tip file v = nfree_current-Falls l rec tip
  replay_sub-Falls (waiting l) rec tip file v = tt
  replay_sub-Falls (at_map n l) rec tip file v = iocbs_map-Falls n l rec tip v.at_sub.1
  replay_sub-Falls (at_submit l m) rec tip file v = omega arith
  replay_sub-Falls (at_account n l) rec tip file v = account-Falls n l rec tip v.at_sub
  replay_sub-Falls sub_done rec tip file v = tt
  replay_sub-Falls sub_failed rec tip file v = tt

  reclaim_ios-Falls :
      (k n : ℕ) (sub : Sub) (tip : ThrInfo)
      → 0 < n
      → n ≤ tip.naios_out
      → measure (reclaim_ios k n sub tip) < measure (sub, at_move k n, tip)
  unfolding reclaim_ios
  reclaim_ios-Falls k n sub tip h le =
      let (same_mapped, same_submitted, same_done, same_pending, same_hand) =
        signal_sub-Signalled o [] sub tip.send_wait in
      omega (
        arith,
        h,
        le,
        rank-signal_sub sub tip.send_wait,
        same_mapped,
        ap length same_pending,
        rank_if (min k (tip.naios_out - n) == 0) (min k (tip.naios_out - n)),
      )
    where
      rank_if : (c : Bool) (left : ℕ) → rec_rank (if c then at_test else at_events left) ≤ 5
      rank_if true left = omega arith
      rank_if false left = omega arith

  pub replay_rec-Falls :
      (ndone : ℕ) (sub : Sub) (rec : Rec) (tip : ThrInfo) (file : List IoBunch)
      → Consistent o file sub rec tip
      → Falls (measure (sub, rec, tip)) (replay_rec ndone sub rec tip)
  unfolding replay_rec io_getevents finish
  replay_rec-Falls ndone sub at_test tip file v =
      if_less _ (is_reap_done tip) _ _ (if_less _ tip.send_done _ _ (omega arith) (omega arith))
        (omega arith)
  replay_rec-Falls ndone sub at_wait tip file v =
      if_less _ (tip.naios_out == 0) _ _ (omega arith) (omega arith)
  replay_rec-Falls ndone sub asleep tip file v = tt
  replay_rec-Falls ndone sub (at_return k) tip file v =
      if_less _ (is_reap_done tip) _ _ (if_less _ tip.send_done _ _ (omega arith) (omega arith))
        (if_less _ (ltb 0 k) _ _ (omega arith) (omega arith))
  replay_rec-Falls ndone sub (at_events k) tip file v =
      elim (Bool-cases (ltb 0 ndone && leb ndone k && leb ndone tip.flight)) [
        | inl h ↦ rw (h, replay_rec, io_getevents) (omega arith)
        | inr h ↦ rw (h, replay_rec, io_getevents) tt
      ]
  replay_rec-Falls ndone sub (at_move k n) tip file v =
      reclaim_ios-Falls k n sub tip v.at_rec.0 (omega (arith, v.at_rec.1, v.at_rec.2))
  replay_rec-Falls ndone sub rec_done tip file v = tt
  replay_rec-Falls ndone sub rec_failed tip file v = tt
