-- ===== src/Btreplay/Submit.antt =====
-- replay_sub from io_submit on, and all its steps together, keep the two threads consistent.
use blktrace.Common.{
  ℕ, ◌+◌, ◌≡◌, refl, ◌∙◌, Bool, true, false, List, [], ◌∷◌, ◌++◌, map, inl, inr, append_assoc,
  Bool-cases, arith,
}
use blktrace.Btrecord.{IoPkt, IoBunch}
use blktrace.Btreplay.{
  Settings, ThrInfo, Sub, at_next, at_loop, at_nfree, waiting, at_map, at_submit, at_account,
  sub_done, sub_failed, Rec, at_test, at_wait, asleep, at_return, at_events, at_move, rec_done,
  rec_failed, as_allowed, all_ok, is_send_done, signal_rec, io_submit, account, replay_sub,
}
use blktrace.Btreplay.Threads.{moving, RecOk, requests, Consistent, IsConsistent, After, keep}
use blktrace.Btreplay.Mapping.{
  next_bunch-IsConsistent, nfree_current-IsConsistent, iocbs_map-IsConsistent,
}

module _ (o : Settings) (file : List IoBunch) where
  abbrev Ok : Sub → Rec → ThrInfo → Type 0
  Ok = Consistent o file

  io_submit-IsConsistent :
      (list pkts : List IoPkt) (rec : Rec) (tip : ThrInfo)
      → Ok (at_submit list pkts) rec tip
      → IsConsistent o file (io_submit list pkts rec tip)
  unfolding io_submit
  io_submit-IsConsistent list pkts rec tip v = record {
    free = v.free;
    total = v.total;
    used = v.used;
    kernel = omega (arith, v.kernel);
    over = v.over;
    at_sub = v.at_sub;
    at_rec = v.at_rec;
    pending_ok = v.pending_ok;
    file_ok = v.file_ok;
    in_order = λ s.
        append_assoc tip.sent list (map (as_allowed o) pkts ++ requests o tip.ifd) ∙ v.in_order s;
  }

  -- More AIOs are out, and replay_rec has been signalled if it waits.
  RecOk-signal :
      (out n : ℕ) (wait over ended : Bool) (rec : Rec)
      → over ≡ false
      → RecOk out wait over ended rec
      → RecOk (out + n) false over ended (signal_rec rec wait)
  unfolding signal_rec
  RecOk-signal out n wait over ended at_test h r = tt
  RecOk-signal out n wait over ended at_wait h r = tt
  RecOk-signal out n true over ended asleep h r = tt
  RecOk-signal out n false over ended asleep h r = absurd (cc)
  RecOk-signal out n wait over ended (at_return k) h r = (r.0, omega (arith, r.1))
  RecOk-signal out n wait over ended (at_events k) h r = (r.0, omega (arith, r.1))
  RecOk-signal out n wait over ended (at_move k m) h r = (r.0, r.1, omega (arith, r.2))
  RecOk-signal out n wait over ended rec_done h r = absurd (cc)
  RecOk-signal out n wait over ended rec_failed h r = r

  moving-signal : (rec : Rec) (wait : Bool) → moving (signal_rec rec wait) ≡ moving rec
  unfolding signal_rec
  moving-signal at_test wait = refl
  moving-signal at_wait wait = refl
  moving-signal asleep true = refl
  moving-signal asleep false = refl
  moving-signal (at_return k) wait = refl
  moving-signal (at_events k) wait = refl
  moving-signal (at_move k n) wait = refl
  moving-signal rec_done wait = refl
  moving-signal rec_failed wait = refl

  account-IsConsistent :
      (n : ℕ) (pkts : List IoPkt) (rec : Rec) (tip : ThrInfo)
      → Ok (at_account n pkts) rec tip
      → IsConsistent o file (account o n pkts rec tip)
  unfolding account
  account-IsConsistent n pkts rec tip v =
      keep o file (at_loop pkts) (signal_rec rec tip.reap_wait)
        (record tip { naios_out = tip.naios_out + n; reap_wait = false }) (ground (arith, v.total))
        (record {
          free = v.free;
          total = omega (arith, v.total);
          used = omega (arith, v.used);
          kernel = omega (arith, v.kernel, moving-signal rec tip.reap_wait);
          over = v.over;
          at_sub = tt;
          at_rec =
              RecOk-signal tip.naios_out n tip.reap_wait tip.send_done tip.reap_done rec v.over
                v.at_rec;
          pending_ok = v.pending_ok;
          file_ok = v.file_ok;
          in_order = v.in_order;
        })

  pub replay_sub-After :
      (sub : Sub) (rec : Rec) (tip : ThrInfo)
      → Ok sub rec tip
      → After o file (replay_sub o sub rec tip)
  unfolding replay_sub is_send_done all_ok
  replay_sub-After at_next rec tip v = next_bunch-IsConsistent o file rec tip v
  replay_sub-After (at_loop []) rec tip v = record {
    free = v.free;
    total = v.total;
    used = v.used;
    kernel = v.kernel;
    over = v.over;
    at_sub = tt;
    at_rec = v.at_rec;
    pending_ok = refl;
    file_ok = v.file_ok;
    in_order = v.in_order;
  }
  replay_sub-After (at_loop (pkt ∷ pkts)) rec tip v = elim (Bool-cases tip.signal_done) [
    | inl h ↦ keep o file at_next rec tip (ground (arith, h)) (record {
      free = v.free;
      total = v.total;
      used = v.used;
      kernel = v.kernel;
      over = v.over;
      at_sub = tt;
      at_rec = v.at_rec;
      pending_ok = refl;
      file_ok = v.file_ok;
      in_order = λ s. absurd (ground (arith, s, h));
    })
    | inr h ↦ keep o file (at_nfree (pkt ∷ pkts)) rec tip (ground (arith, h, v.over)) (record {
      free = v.free;
      total = v.total;
      used = v.used;
      kernel = v.kernel;
      over = v.over;
      at_sub = omega arith;
      at_rec = v.at_rec;
      pending_ok = v.pending_ok;
      file_ok = v.file_ok;
      in_order = v.in_order;
    })
  ]
  replay_sub-After (at_nfree pkts) rec tip v = nfree_current-IsConsistent o file pkts rec tip v
  replay_sub-After (waiting pkts) rec tip v = tt
  replay_sub-After (at_map n pkts) rec tip v = iocbs_map-IsConsistent o file n pkts rec tip v
  replay_sub-After (at_submit list pkts) rec tip v = io_submit-IsConsistent list pkts rec tip v
  replay_sub-After (at_account n pkts) rec tip v = account-IsConsistent n pkts rec tip v
  replay_sub-After sub_done rec tip v = tt
  replay_sub-After sub_failed rec tip v = tt
