-- ===== src/Btreplay/Mapping.antt =====
-- replay_sub up to io_submit: each step keeps the two threads consistent.
use blktrace.Common.{
  ℕ, suc, ◌+◌, ◌-◌, ◌≤◌, ◌<◌, ◌≡◌, refl, ap, ◌∙◌, subst, min, Bool, true, false, ◌&&◌, List, [],
  ◌∷◌, ◌++◌, map, ◌⊎◌, inl, inr, zero, ltb, leb, ◌==◌, length, take, drop, length-take, length-map,
  Bool-cases, arith,
}
use blktrace.Btrecord.{IoPkt, IoBunch}
use blktrace.Btreplay.{
  Settings, ThrInfo, Sub, at_next, at_loop, at_nfree, waiting, at_map, at_submit, sub_done,
  sub_failed, Rec, at_test, at_wait, asleep, at_return, at_events, at_move, rec_done, rec_failed,
  as_allowed, all_ok, setup_ok, is_send_done, next_bunch, nfree_current, iocbs_map,
}
use blktrace.Btreplay.Threads.{
  RecOk, bunch_ok, bunches_ok, requests, Consistent, IsConsistent, keep,
}

and_left : (a b : Bool) → (a && b) ≡ true → a ≡ true
and_left a b h = ground arith

and_right : (a b : Bool) → (a && b) ≡ true → b ≡ true
and_right a b h = ground arith

all_ok-take : (n : ℕ) (l : List IoPkt) → all_ok l ≡ true → all_ok (take n l) ≡ true
unfolding all_ok
all_ok-take zero l h = refl
all_ok-take (suc n) [] h = refl
all_ok-take (suc n) (x ∷ l) h =
    let tail = all_ok-take n l (and_right (setup_ok x) (all_ok l) h) in
    rw (and_left (setup_ok x) (all_ok l) h, tail) refl

all_ok-drop : (n : ℕ) (l : List IoPkt) → all_ok l ≡ true → all_ok (drop n l) ≡ true
unfolding all_ok
all_ok-drop zero l h = h
all_ok-drop (suc n) [] h = refl
all_ok-drop (suc n) (x ∷ l) h = all_ok-drop n l (and_right (setup_ok x) (all_ok l) h)

rejoin :
    (f : IoPkt → IoPkt) (n : ℕ) (l r : List IoPkt)
    → map f (take n l) ++ (map f (drop n l) ++ r) ≡ map f l ++ r
rejoin f zero l r = refl
rejoin f (suc n) [] r = refl
rejoin f (suc n) (x ∷ l) r = ap (λ k. f x ∷ k) (rejoin f n l r)

module _ (o : Settings) (file : List IoBunch) where
  abbrev Ok : Sub → Rec → ThrInfo → Type 0
  Ok = Consistent o file

  RecOk-over :
      (out : ℕ) (wait over ended : Bool) (rec : Rec)
      → RecOk out wait over ended rec
      → RecOk out wait true ended rec
  RecOk-over out wait over ended at_test h = tt
  RecOk-over out wait over ended at_wait h = tt
  RecOk-over out wait over ended asleep h = h
  RecOk-over out wait over ended (at_return k) h = h
  RecOk-over out wait over ended (at_events k) h = h
  RecOk-over out wait over ended (at_move k n) h = h
  RecOk-over out wait over ended rec_done h = (refl, h.1, h.2)
  RecOk-over out wait over ended rec_failed h = h

  finish_sub :
      (rec : Rec) (tip : ThrInfo)
      → Ok at_next rec tip
      → (tip.ifd ≡ []) ⊎ (tip.signal_done ≡ true)
      → Ok sub_done rec (record tip { send_done = true })
  finish_sub rec tip v h = record {
    free = v.free;
    total = v.total;
    used = v.used;
    kernel = v.kernel;
    over = refl;
    at_sub = h;
    at_rec = RecOk-over tip.naios_out tip.reap_wait tip.send_done tip.reap_done rec v.at_rec;
    pending_ok = v.pending_ok;
    file_ok = v.file_ok;
    in_order = v.in_order;
  }

  pub next_bunch-IsConsistent :
      (rec : Rec) (tip : ThrInfo) → Ok at_next rec tip → IsConsistent o file (next_bunch rec tip)
  unfolding next_bunch is_send_done bunch_ok bunches_ok requests
  next_bunch-IsConsistent rec tip v = elim (Bool-cases tip.signal_done) [
    | inl h ↦
        keep o file sub_done rec (record tip { send_done = true }) (ground (arith, h))
          (finish_sub rec tip v (inr h))
    | inr h ↦ go tip.ifd refl h
  ]
    where
      go :
          (ifd : List IoBunch)
          → tip.ifd ≡ ifd
          → tip.signal_done ≡ false
          → IsConsistent o file (next_bunch rec tip)
      go [] e h =
          keep o file sub_done rec (record tip { send_done = true }) (ground (arith, h, v.over, e))
            (finish_sub rec tip v (inl e))
      go (b ∷ bs) e h =
          let ok : ((bunch_ok b && all_ok b.pkts) && bunches_ok bs) ≡ true =
            subst (λ l. bunches_ok l ≡ true) e v.file_ok in
          keep o file (at_loop b.pkts) rec (record tip { ifd = bs })
            (ground (
              arith,
              h,
              v.over,
              e,
              and_left (bunch_ok b) (all_ok b.pkts)
                  (and_left (bunch_ok b && all_ok b.pkts) (bunches_ok bs) ok),
            ))
            (record {
              free = v.free;
              total = v.total;
              used = v.used;
              kernel = v.kernel;
              over = v.over;
              at_sub = tt;
              at_rec = v.at_rec;
              pending_ok =
                  and_right (bunch_ok b) (all_ok b.pkts)
                    (and_left (bunch_ok b && all_ok b.pkts) (bunches_ok bs) ok);
              file_ok = and_right (bunch_ok b && all_ok b.pkts) (bunches_ok bs) ok;
              in_order =
                  λ n. subst (λ l. tip.sent ++ requests o l ≡ requests o file) e (v.in_order n);
            })

  pub nfree_current-IsConsistent :
      (pkts : List IoPkt) (rec : Rec) (tip : ThrInfo)
      → Ok (at_nfree pkts) rec tip
      → IsConsistent o file (nfree_current pkts rec tip)
  unfolding nfree_current is_send_done
  nfree_current-IsConsistent pkts rec tip v = elim (Bool-cases tip.signal_done) [
    | inl h ↦
        keep o file (at_map (min 0 (length pkts)) pkts) rec tip (ground (arith, h))
          (map_next 0 (omega arith) (inl h))
    | inr h ↦ elim (Bool-cases (tip.naios_free == 0)) [
      | inl z ↦
          keep o file (waiting pkts) rec (record tip { send_wait = true })
            (ground (arith, h, v.over, z))
            (record {
              free = v.free;
              total = v.total;
              used = v.used;
              kernel = v.kernel;
              over = v.over;
              at_sub = (v.at_sub, ground (arith, z), refl);
              at_rec = v.at_rec;
              pending_ok = v.pending_ok;
              file_ok = v.file_ok;
              in_order = v.in_order;
            })
      | inr z ↦
          keep o file (at_map (min tip.naios_free (length pkts)) pkts) rec tip
            (ground (arith, h, v.over, z))
            (map_next tip.naios_free (omega arith) (inr (ground (arith, z))))
    ]
  ]
    where
      map_next :
          (n : ℕ)
          → n ≤ tip.naios_free
          → (tip.signal_done ≡ true) ⊎ (0 < n)
          → Ok (at_map (min n (length pkts)) pkts) rec tip
      map_next n le h = record {
        free = v.free;
        total = v.total;
        used = v.used;
        kernel = v.kernel;
        over = v.over;
        at_sub = (
          omega (arith, le),
          omega arith,
          elim h [ inl s ↦ inl s | inr p ↦ inr (omega (arith, p, v.at_sub)) ],
        );
        at_rec = v.at_rec;
        pending_ok = v.pending_ok;
        file_ok = v.file_ok;
        in_order = v.in_order;
      }

  pub iocbs_map-IsConsistent :
      (n : ℕ) (pkts : List IoPkt) (rec : Rec) (tip : ThrInfo)
      → Ok (at_map n pkts) rec tip
      → IsConsistent o file (iocbs_map o n pkts rec tip)
  unfolding iocbs_map all_ok
  iocbs_map-IsConsistent n pkts rec tip v = elim (Bool-cases (ltb 0 n)) [
    | inr z ↦ keep o file sub_failed rec tip (ground (arith, z)) (record {
      free = v.free;
      total = v.total;
      used = v.used;
      kernel = v.kernel;
      over = v.over;
      at_sub = stopped z;
      at_rec = v.at_rec;
      pending_ok = refl;
      file_ok = v.file_ok;
      in_order = λ s. absurd (ground (arith, s, stopped z));
    })
    | inl z ↦
        keep o file (at_submit (map (as_allowed o) (take n pkts)) (drop n pkts)) rec
          (record tip {
            free_iocbs = tip.free_iocbs - n;
            used_iocbs = tip.used_iocbs + n;
            naios_free = tip.naios_free - n;
          })
          (rw (z, few, listed, left, all_ok-take n pkts v.pending_ok, iocbs_map) refl)
          (record {
            free = omega (arith, v.free);
            total = omega (arith, v.total, v.at_sub.0, len);
            used = omega (arith, v.used, len);
            kernel = v.kernel;
            over = v.over;
            at_sub = omega (arith, len, positive z);
            at_rec = v.at_rec;
            pending_ok = all_ok-drop n pkts v.pending_ok;
            file_ok = v.file_ok;
            in_order = λ s.
                ap (λ k. tip.sent ++ k) (rejoin (as_allowed o) n pkts (requests o tip.ifd))
                ∙ v.in_order s;
          })
  ]
    where
      stopped : ltb 0 n ≡ false → tip.signal_done ≡ true
      stopped z = elim v.at_sub.2 [ inl s ↦ s | inr p ↦ absurd (ground (arith, z, p)) ]

      positive : ltb 0 n ≡ true → 0 < n
      positive z = ground (arith, z)

      len : length (map (as_allowed o) (take n pkts)) ≡ n
      len = omega (arith, length-map (take n pkts) (as_allowed o), length-take n pkts, v.at_sub.1)

      few : leb n o.naios ≡ true
      few = ground (arith, v.total, v.at_sub.0)

      listed : leb n tip.free_iocbs ≡ true
      listed = ground (arith, v.free, v.at_sub.0)

      left : leb n tip.naios_free ≡ true
      left = ground (arith, v.at_sub.0)
