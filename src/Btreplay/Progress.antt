-- ===== src/Btreplay/Progress.antt =====
-- The two threads of btreplay come to an end of the file.
use blktrace.Common.{
  ◌-◌, ◌<◌, ◌≡◌, refl, sym, ◌∙◌, subst, true, false, List, [], ◌∷◌, ◌++◌, ◌⊎◌, inl, inr, ◌==◌,
  Bool-cases, arith, append-nil,
}
use blktrace.Btrecord.{IoBunch}
use blktrace.Btreplay.{
  Settings, ThrInfo, Sub, at_next, at_loop, at_nfree, waiting, at_map, at_submit, at_account,
  sub_done, sub_failed, Rec, at_test, at_wait, asleep, at_return, at_events, at_move, rec_done,
  rec_failed, Point, tip_init, Step, by_sub, by_rec, Reach, replay_sub, replay_rec, io_getevents,
}
use blktrace.Btreplay.Threads.{bunches_ok, requests, Consistent}
use blktrace.Btreplay.Reached.{Reach-IsConsistent}

-- What is left once neither thread can go on
pub record Finished (o : Settings) (file : List IoBunch) (s : Point) : Type 0 where
  pub sub_end : s.0 ≡ sub_done
  pub rec_end : (s.1 ≡ rec_done) ⊎ (s.1 ≡ asleep)
  pub all_sent : s.2.sent ≡ requests o file
  pub none_out : s.2.naios_out ≡ 0
  pub none_flying : s.2.flight ≡ 0
  pub all_free : s.2.free_iocbs ≡ o.naios

abbrev pub Stuck : Settings → Point → Type 0
Stuck o s = (t : Point) → ¬ Step o s t

module _ (o : Settings) (some_aio : 0 < o.naios) (file : List IoBunch) where
  -- replay_rec can go on wherever AIOs are out.
  rec_moves :
      (sub : Sub) (rec : Rec) (tip : ThrInfo)
      → Consistent o file sub rec tip
      → 0 < tip.naios_out
      → ¬ Stuck o (sub, rec, tip)
  unfolding replay_rec io_getevents
  rec_moves sub at_test tip v h stuck = absurd (stuck _ (by_rec 1 refl))
  rec_moves sub at_wait tip v h stuck = absurd (stuck _ (by_rec 1 refl))
  rec_moves sub asleep tip v h stuck = omega (arith, v.at_rec.0)
  rec_moves sub (at_return k) tip v h stuck = absurd (stuck _ (by_rec 1 refl))
  rec_moves sub (at_events k) tip v h stuck = absurd (
      stuck (sub, at_move k 1, record tip { flight = tip.flight - 1 })
        (by_rec 1 (ground (arith, v.kernel, h, v.at_rec.0))))
  rec_moves sub (at_move k n) tip v h stuck = absurd (stuck _ (by_rec 1 refl))
  rec_moves sub rec_done tip v h stuck = omega (arith, v.at_rec.1)
  rec_moves sub rec_failed tip v h stuck = omega (arith, v.at_rec)

  rec_ends :
      (rec : Rec) (tip : ThrInfo)
      → Consistent o file sub_done rec tip
      → tip.signal_done ≡ false
      → Stuck o (sub_done, rec, tip)
      → Finished o file (sub_done, rec, tip)
  unfolding replay_rec requests
  rec_ends rec tip v h stuck = elim (Bool-cases (tip.naios_out == 0)) [
    | inr p ↦ absurd (rec_moves sub_done rec tip v (ground (arith, p)) stuck)
    | inl z ↦
        let none_left : tip.ifd ≡ [] = elim v.at_sub [
          | inl e ↦ e
          | inr s ↦ absurd (ground (arith, s, h))
        ] in
        record {
          sub_end = refl;
          rec_end = at_end rec v stuck;
          all_sent =
              sym (append-nil tip.sent)
              ∙ subst (λ l. tip.sent ++ requests o l ≡ requests o file) none_left (v.in_order h);
          none_out = ground (arith, z);
          none_flying = ground (arith, z, v.kernel);
          all_free = ground (arith, z, v.total, v.free);
        }
  ]
    where
      at_end :
          (rec : Rec)
          → Consistent o file sub_done rec tip
          → Stuck o (sub_done, rec, tip)
          → (rec ≡ rec_done) ⊎ (rec ≡ asleep)
      at_end at_test v stuck = absurd (stuck _ (by_rec 1 refl))
      at_end at_wait v stuck = absurd (stuck _ (by_rec 1 refl))
      at_end asleep v stuck = inr refl
      at_end (at_return k) v stuck = absurd (stuck _ (by_rec 1 refl))
      at_end (at_events k) v stuck =
          absurd
            (rec_moves sub_done (at_events k) tip v (omega (arith, v.at_rec.0, v.at_rec.1)) stuck)
      at_end (at_move k n) v stuck = absurd (stuck _ (by_rec 1 refl))
      at_end rec_done v stuck = inl refl
      at_end rec_failed v stuck = absurd (omega (arith, v.at_rec))

  Stuck-Finished :
      (sub : Sub) (rec : Rec) (tip : ThrInfo)
      → Consistent o file sub rec tip
      → tip.signal_done ≡ false
      → Stuck o (sub, rec, tip)
      → Finished o file (sub, rec, tip)
  unfolding replay_sub
  Stuck-Finished at_next rec tip v h stuck = absurd (stuck _ (by_sub refl))
  Stuck-Finished (at_loop []) rec tip v h stuck = absurd (stuck _ (by_sub refl))
  Stuck-Finished (at_loop (p ∷ l)) rec tip v h stuck = absurd (stuck _ (by_sub refl))
  Stuck-Finished (at_nfree l) rec tip v h stuck = absurd (stuck _ (by_sub refl))
  Stuck-Finished (waiting l) rec tip v h stuck =
      absurd (rec_moves (waiting l) rec tip v (omega (arith, v.total, v.at_sub.1, some_aio)) stuck)
  Stuck-Finished (at_map n l) rec tip v h stuck = absurd (stuck _ (by_sub refl))
  Stuck-Finished (at_submit l m) rec tip v h stuck = absurd (stuck _ (by_sub refl))
  Stuck-Finished (at_account n l) rec tip v h stuck = absurd (stuck _ (by_sub refl))
  Stuck-Finished sub_done rec tip v h stuck = rec_ends rec tip v h stuck
  Stuck-Finished sub_failed rec tip v h stuck = absurd (ground (arith, v.at_sub, h))

  -- There is no deadlock: in a state that can be reached with no signal, on bunches as next_bunch and
  -- iocb_setup assert them and with at least one AIO, where neither thread can make a step, the packets
  -- of the whole file have been sent in its order and all AIOs are reclaimed and free; replay_sub is at
  -- its end, and so is replay_rec, unless it sleeps in reap_wait_aios.
  pub Reach-Finished :
      bunches_ok file ≡ true
      → (s : Point) → Reach o (tip_init o file) s
      → s.2.signal_done ≡ false
      → Stuck o s
      → Finished o file s
  Reach-Finished ok (sub, rec, tip) r h stuck =
      Stuck-Finished sub rec tip (Reach-IsConsistent o file ok (sub, rec, tip) r) h stuck
