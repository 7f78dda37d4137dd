-- ===== src/Btreplay/Reached.antt =====
-- What holds in every state that the two threads of btreplay can reach.
use blktrace.Common.{ℕ, ◌≡◌, refl, sym, ◌∙◌, subst, Bool, true, List, inl, inr, arith}
use blktrace.Btrecord.{IoBunch}
use blktrace.Btreplay.{
  Settings, ThrInfo, Sub, at_next, at_loop, at_nfree, waiting, at_map, at_submit, at_account,
  sub_done, sub_failed, Rec, at_test, at_wait, asleep, at_return, at_events, at_move, rec_done,
  rec_failed, Point, all_ok, signal_sub, signal_rec, tip_init, wake_sub, wake_rec, set_signal_done,
  Step, by_sub, by_rec, Reach, start, by_step, by_waking_sub, by_waking_rec, by_signal,
}
use blktrace.Btreplay.Threads.{moving, SubOk, RecOk, bunches_ok, IsConsistent, After}
use blktrace.Btreplay.Submit.{replay_sub-After}
use blktrace.Btreplay.Reclaim.{replay_rec-After, signal_sub-Signalled}

module _ (o : Settings) (file : List IoBunch) where
  pub Step-IsConsistent : (s t : Point) → Step o s t → IsConsistent o file s → IsConsistent o file t
  Step-IsConsistent (sub, rec, tip) t (by_sub e) v =
      subst (After o file) e (replay_sub-After o file sub rec tip v)
  Step-IsConsistent (sub, rec, tip) t (by_rec n e) v =
      subst (After o file) e (replay_rec-After o file n sub rec tip v)

  SubOk-waking :
      (free : ℕ) (wait signal : Bool) (ifd : List IoBunch) (sub : Sub)
      → SubOk free wait signal ifd sub
      → SubOk free wait signal ifd (signal_sub sub true)
  unfolding signal_sub
  SubOk-waking free wait signal ifd at_next h = h
  SubOk-waking free wait signal ifd (at_loop l) h = h
  SubOk-waking free wait signal ifd (at_nfree l) h = h
  SubOk-waking free wait signal ifd (waiting l) h = h.0
  SubOk-waking free wait signal ifd (at_map n l) h = h
  SubOk-waking free wait signal ifd (at_submit l m) h = h
  SubOk-waking free wait signal ifd (at_account n l) h = h
  SubOk-waking free wait signal ifd sub_done h = h
  SubOk-waking free wait signal ifd sub_failed h = h

  wake_sub-IsConsistent : (s : Point) → IsConsistent o file s → IsConsistent o file (wake_sub s)
  unfolding wake_sub
  wake_sub-IsConsistent (sub, rec, tip) v =
      let (same_mapped, same_submitted, same_done, same_pending, same_hand) =
        signal_sub-Signalled o file sub true in
      record {
        free = v.free;
        total = omega (arith, v.total, same_mapped);
        used = omega (arith, v.used, same_mapped);
        kernel = omega (arith, v.kernel, same_submitted);
        over = v.over ∙ sym same_done;
        at_sub = SubOk-waking tip.naios_free tip.send_wait tip.signal_done tip.ifd sub v.at_sub;
        at_rec = v.at_rec;
        pending_ok = rw (same_pending) v.pending_ok;
        file_ok = v.file_ok;
        in_order = rw (same_pending, same_hand) v.in_order;
      }

  RecOk-waking :
      (tip : ThrInfo) (rec : Rec)
      → RecOk tip.naios_out tip.reap_wait tip.send_done tip.reap_done rec
      → (moving (signal_rec rec true) ≡ moving rec)
        × RecOk tip.naios_out tip.reap_wait tip.send_done tip.reap_done (signal_rec rec true)
  unfolding signal_rec
  RecOk-waking tip at_test h = (refl, h)
  RecOk-waking tip at_wait h = (refl, h)
  RecOk-waking tip asleep h = (refl, tt)
  RecOk-waking tip (at_return k) h = (refl, h)
  RecOk-waking tip (at_events k) h = (refl, h)
  RecOk-waking tip (at_move k n) h = (refl, h)
  RecOk-waking tip rec_done h = (refl, h)
  RecOk-waking tip rec_failed h = (refl, h)

  wake_rec-IsConsistent : (s : Point) → IsConsistent o file s → IsConsistent o file (wake_rec s)
  unfolding wake_rec
  wake_rec-IsConsistent (sub, rec, tip) v =
      let (same_moving, r) = RecOk-waking tip rec v.at_rec in
      record {
        free = v.free;
        total = v.total;
        used = v.used;
        kernel = omega (arith, v.kernel, same_moving);
        over = v.over;
        at_sub = v.at_sub;
        at_rec = r;
        pending_ok = v.pending_ok;
        file_ok = v.file_ok;
        in_order = v.in_order;
      }

  SubOk-signalled :
      (free : ℕ) (wait signal : Bool) (ifd : List IoBunch) (sub : Sub)
      → SubOk free wait signal ifd sub
      → SubOk free wait true ifd sub
  SubOk-signalled free wait signal ifd at_next h = h
  SubOk-signalled free wait signal ifd (at_loop l) h = h
  SubOk-signalled free wait signal ifd (at_nfree l) h = h
  SubOk-signalled free wait signal ifd (waiting l) h = h
  SubOk-signalled free wait signal ifd (at_map n l) h = (h.0, h.1, inl refl)
  SubOk-signalled free wait signal ifd (at_submit l m) h = h
  SubOk-signalled free wait signal ifd (at_account n l) h = h
  SubOk-signalled free wait signal ifd sub_done h = inr refl
  SubOk-signalled free wait signal ifd sub_failed h = refl

  pub set_signal_done-IsConsistent :
      (s : Point) → IsConsistent o file s → IsConsistent o file (set_signal_done s)
  unfolding set_signal_done
  set_signal_done-IsConsistent (sub, rec, tip) v = record {
    free = v.free;
    total = v.total;
    used = v.used;
    kernel = v.kernel;
    over = v.over;
    at_sub = SubOk-signalled tip.naios_free tip.send_wait tip.signal_done tip.ifd sub v.at_sub;
    at_rec = v.at_rec;
    pending_ok = v.pending_ok;
    file_ok = v.file_ok;
    in_order = λ h. absurd (cc);
  }

  -- In every state that can be reached, whatever the order of the steps, with wakings of the condition
  -- and signals at any time, on bunches as next_bunch and iocb_setup assert them: the counters agree
  -- with the lists and with the kernel and add up to naios, a failed assert of replay_sub comes after a
  -- signal only, none of replay_rec fails, and with no signal what was sent is what the file has, in
  -- its order.
  pub Reach-IsConsistent :
      bunches_ok file ≡ true → (s : Point) → Reach o (tip_init o file) s → IsConsistent o file s
  unfolding tip_init all_ok
  Reach-IsConsistent ok s start = record {
    free = refl;
    total = omega arith;
    used = refl;
    kernel = refl;
    over = refl;
    at_sub = tt;
    at_rec = tt;
    pending_ok = refl;
    file_ok = ok;
    in_order = λ h. refl;
  }
  Reach-IsConsistent ok s (by_step {t} r st) = Step-IsConsistent t s st (Reach-IsConsistent ok t r)
  Reach-IsConsistent ok s (by_waking_sub {t} r) =
      wake_sub-IsConsistent t (Reach-IsConsistent ok t r)
  Reach-IsConsistent ok s (by_waking_rec {t} r) =
      wake_rec-IsConsistent t (Reach-IsConsistent ok t r)
  Reach-IsConsistent ok s (by_signal {t} r) =
      set_signal_done-IsConsistent t (Reach-IsConsistent ok t r)
