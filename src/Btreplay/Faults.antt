-- ===== src/Btreplay/Faults.antt =====
-- An order of events in which btreplay does not come to its proper end.
use blktrace.Common.{◌≡◌, refl, true, List, arith, min, length}
use blktrace.Btrecord.{IoPkt, IoBunch}
use blktrace.Btreplay.{
  Settings, ThrInfo, at_nfree, at_map, sub_failed, Rec, is_send_done, nfree_current, iocbs_map,
  tip_init, replay_sub, set_signal_done, by_sub, Reach, by_step, by_signal,
}

module _ (o : Settings) (file : List IoBunch) where
  -- Wherever replay_sub is about to look for free AIOs, a signal may come so that the assert after it
  -- fails, although nfree_current is meant to return 0 then.
  pub signal-failed :
      (pkts : List IoPkt) (rec : Rec) (tip : ThrInfo)
      → Reach o (tip_init o file) (at_nfree pkts, rec, tip)
      → Reach o (tip_init o file) (sub_failed, rec, record tip { signal_done = true })
  unfolding set_signal_done replay_sub nfree_current is_send_done iocbs_map
  signal-failed pkts rec tip r =
      let tip' : ThrInfo = record tip { signal_done = true } in
      let none_free : min 0 (length pkts) ≡ 0 = omega arith in
      by_step
        (by_step {t = (at_nfree pkts, rec, tip')}
          {u = (at_map (min 0 (length pkts)) pkts, rec, tip')} (by_signal r) (by_sub refl))
        (by_sub (rw (none_free) refl))
