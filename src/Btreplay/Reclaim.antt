-- ===== src/Btreplay/Reclaim.antt =====
-- Each step of replay_rec keeps the two threads consistent.
use blktrace.Common.{
  ℕ, ◌+◌, ◌-◌, ◌≡◌, refl, sym, ◌∙◌, min, Bool, true, false, ◌&&◌, List, inl, inr, ltb, leb, ◌==◌,
  Bool-cases, arith,
}
use blktrace.Btrecord.{IoBunch}
use blktrace.Btreplay.{
  Settings, ThrInfo, Sub, at_next, at_loop, at_nfree, waiting, at_map, at_submit, at_account,
  sub_done, sub_failed, Rec, at_test, at_wait, asleep, at_return, at_events, at_move, rec_done,
  rec_failed, is_reap_done, signal_sub, finish, io_getevents, reclaim_ios, replay_rec,
}
use blktrace.Btreplay.Threads.{
  pending, in_hand, mapped, submitted, moving, is_done, SubOk, RecOk, Consistent, IsConsistent,
  After, keep,
}

module _ (o : Settings) (file : List IoBunch) where
  abbrev Ok : Sub → Rec → ThrInfo → Type 0
  Ok = Consistent o file

  -- Only the position of replay_rec changes.
  move_rec :
      (sub : Sub) (rec rec' : Rec) (tip : ThrInfo)
      → Ok sub rec tip
      → moving rec' ≡ moving rec
      → RecOk tip.naios_out tip.reap_wait tip.send_done tip.reap_done rec'
      → Ok sub rec' tip
  move_rec sub rec rec' tip v e r = record {
    free = v.free;
    total = v.total;
    used = v.used;
    kernel = omega (arith, v.kernel, e);
    over = v.over;
    at_sub = v.at_sub;
    at_rec = r;
    pending_ok = v.pending_ok;
    file_ok = v.file_ok;
    in_order = v.in_order;
  }

  finish-IsConsistent :
      (sub : Sub) (rec : Rec) (tip : ThrInfo)
      → Ok sub rec tip
      → moving rec ≡ 0
      → is_reap_done tip ≡ true
      → IsConsistent o file (finish sub tip)
  unfolding finish is_reap_done
  finish-IsConsistent sub rec tip v e h =
      keep o file sub rec_done (record tip { reap_done = true }) (ground (arith, h))
        (record {
          free = v.free;
          total = v.total;
          used = v.used;
          kernel = omega (arith, v.kernel, e);
          over = v.over;
          at_sub = v.at_sub;
          at_rec = (ground (arith, h), ground (arith, h), refl);
          pending_ok = v.pending_ok;
          file_ok = v.file_ok;
          in_order = v.in_order;
        })

  io_getevents-After :
      (ndone k : ℕ) (sub : Sub) (tip : ThrInfo)
      → Ok sub (at_events k) tip
      → After o file (io_getevents ndone k sub tip)
  unfolding io_getevents
  io_getevents-After ndone k sub tip v =
      elim (Bool-cases (ltb 0 ndone && leb ndone k && leb ndone tip.flight)) [
        | inr h ↦ rw (h, io_getevents) tt
        | inl h ↦
            rw (h, io_getevents)
              (record {
                free = v.free;
                total = v.total;
                used = v.used;
                kernel = ground (arith, v.kernel, h);
                over = v.over;
                at_sub = v.at_sub;
                at_rec = (ground (arith, h), ground (arith, h), v.at_rec.1);
                pending_ok = v.pending_ok;
                file_ok = v.file_ok;
                in_order = v.in_order;
              })
      ]

  -- What the signal to replay_sub leaves as it is
  abbrev pub Signalled : Sub → Sub → Type 0
  Signalled sub sub' =
      (mapped sub' ≡ mapped sub)
      × (submitted sub' ≡ submitted sub)
      × (is_done sub' ≡ is_done sub)
      × (pending sub' ≡ pending sub)
      × (in_hand sub' ≡ in_hand sub)

  pub signal_sub-Signalled : (sub : Sub) (wait : Bool) → Signalled sub (signal_sub sub wait)
  unfolding signal_sub
  signal_sub-Signalled at_next wait = (refl, refl, refl, refl, refl)
  signal_sub-Signalled (at_loop l) wait = (refl, refl, refl, refl, refl)
  signal_sub-Signalled (at_nfree l) wait = (refl, refl, refl, refl, refl)
  signal_sub-Signalled (waiting l) true = (refl, refl, refl, refl, refl)
  signal_sub-Signalled (waiting l) false = (refl, refl, refl, refl, refl)
  signal_sub-Signalled (at_map n l) wait = (refl, refl, refl, refl, refl)
  signal_sub-Signalled (at_submit l m) wait = (refl, refl, refl, refl, refl)
  signal_sub-Signalled (at_account n l) wait = (refl, refl, refl, refl, refl)
  signal_sub-Signalled sub_done wait = (refl, refl, refl, refl, refl)
  signal_sub-Signalled sub_failed wait = (refl, refl, refl, refl, refl)

  -- More AIOs are free, and replay_sub has been signalled if it waits.
  SubOk-signal :
      (free n : ℕ) (wait signal : Bool) (ifd : List IoBunch) (sub : Sub)
      → SubOk free wait signal ifd sub
      → SubOk (free + n) false signal ifd (signal_sub sub wait)
  unfolding signal_sub
  SubOk-signal free n wait signal ifd at_next h = tt
  SubOk-signal free n wait signal ifd (at_loop l) h = tt
  SubOk-signal free n wait signal ifd (at_nfree l) h = h
  SubOk-signal free n true signal ifd (waiting l) h = h.0
  SubOk-signal free n false signal ifd (waiting l) h = absurd (cc)
  SubOk-signal free n wait signal ifd (at_map m l) h = (omega (arith, h.0), h.1, h.2)
  SubOk-signal free n wait signal ifd (at_submit l m) h = h
  SubOk-signal free n wait signal ifd (at_account m l) h = h
  SubOk-signal free n wait signal ifd sub_done h = h
  SubOk-signal free n wait signal ifd sub_failed h = h

  reclaim_ios-IsConsistent :
      (k n : ℕ) (sub : Sub) (tip : ThrInfo)
      → Ok sub (at_move k n) tip
      → IsConsistent o file (reclaim_ios k n sub tip)
  unfolding reclaim_ios
  reclaim_ios-IsConsistent k n sub tip v = elim (Bool-cases (left == 0)) [
    | inl z ↦
        keep o file {out = reclaim_ios k n sub tip} sub' at_test tip' (ground (arith, z))
          (reclaimed at_test refl tt)
    | inr z ↦
        keep o file {out = reclaim_ios k n sub tip} sub' (at_events left) tip' (ground (arith, z))
          (reclaimed (at_events left) refl (ground (arith, z), omega arith))
  ]
    where
      left : ℕ
      left = min k (tip.naios_out - n)

      sub' : Sub
      sub' = signal_sub sub tip.send_wait

      tip' : ThrInfo
      tip' = record tip {
        free_iocbs = tip.free_iocbs + n;
        used_iocbs = tip.used_iocbs - n;
        naios_free = tip.naios_free + n;
        naios_out = tip.naios_out - n;
        send_wait = false;
      }

      reclaimed :
          (rec : Rec)
          → moving rec ≡ 0
          → RecOk (tip.naios_out - n) tip.reap_wait tip.send_done tip.reap_done rec
          → Ok sub' rec tip'
      reclaimed rec e r =
          let (same_mapped, same_submitted, same_done, same_pending, same_hand) =
            signal_sub-Signalled sub tip.send_wait in
          record {
            free = omega (arith, v.free);
            total = omega (arith, v.total, same_mapped, v.at_rec.1, v.at_rec.2);
            used = omega (arith, v.used, same_mapped, v.at_rec.1, v.at_rec.2);
            kernel = omega (arith, v.kernel, same_submitted, e, v.at_rec.1, v.at_rec.2);
            over = v.over ∙ sym same_done;
            at_sub =
                SubOk-signal tip.naios_free n tip.send_wait tip.signal_done tip.ifd sub v.at_sub;
            at_rec = r;
            pending_ok = rw (same_pending) v.pending_ok;
            file_ok = v.file_ok;
            in_order = rw (same_pending, same_hand) v.in_order;
          }

  pub replay_rec-After :
      (ndone : ℕ) (sub : Sub) (rec : Rec) (tip : ThrInfo)
      → Ok sub rec tip
      → After o file (replay_rec ndone sub rec tip)
  unfolding replay_rec is_reap_done
  replay_rec-After ndone sub at_test tip v = elim (Bool-cases (is_reap_done tip)) [
    | inl h ↦ rw (h, replay_rec) (finish-IsConsistent sub at_test tip v refl h)
    | inr h ↦ rw (h, replay_rec) (move_rec sub at_test at_wait tip v refl tt)
  ]
  replay_rec-After ndone sub at_wait tip v = elim (Bool-cases (tip.naios_out == 0)) [
    | inl z ↦
        keep o file sub asleep (record tip { reap_wait = true }) (rw (z, replay_rec) refl)
          (record {
            free = v.free;
            total = v.total;
            used = v.used;
            kernel = v.kernel;
            over = v.over;
            at_sub = v.at_sub;
            at_rec = (ground (arith, z), refl);
            pending_ok = v.pending_ok;
            file_ok = v.file_ok;
            in_order = v.in_order;
          })
    | inr z ↦
        keep o file sub (at_return tip.naios_out) tip (rw (z, replay_rec) refl) (
          move_rec sub at_wait (at_return tip.naios_out) tip v refl
            (ground (arith, z), omega arith))
  ]
  replay_rec-After ndone sub asleep tip v = tt
  replay_rec-After ndone sub (at_return k) tip v =
      keep o file sub (at_events k) tip (ground (arith, v.at_rec.0, v.at_rec.1))
        (move_rec sub (at_return k) (at_events k) tip v refl v.at_rec)
  replay_rec-After ndone sub (at_events k) tip v = io_getevents-After ndone k sub tip v
  replay_rec-After ndone sub (at_move k n) tip v = reclaim_ios-IsConsistent k n sub tip v
  replay_rec-After ndone sub rec_done tip v = tt
  replay_rec-After ndone sub rec_failed tip v = tt
