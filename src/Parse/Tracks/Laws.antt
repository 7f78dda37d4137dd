-- ===== src/Parse/Tracks/Laws.antt =====
-- What the functions log_track_* do to the map from sectors to requests, and what they measure.
use blktrace.Common.{
  ℕ, ◌+◌, ◌^◌, ◌<◌, ◌≡◌, ◌≢◌, refl, ap, sym, ◌∙◌, subst, true, none, some, if◌then◌else◌, ◌==◌,
  ==_iff, ==_false, arith, Bool-cases, Option-cases, inl, inr, sub64, add64, max64, has_bits,
}
use blktrace.Trace.Record.{BlkIoTrace}
use blktrace.Trace.Header.{t_sec}
use blktrace.Trace.Tc
use blktrace.Parse.Processes.{Processes, Hash, add_ppm_hash, unknown}
use blktrace.Parse.RbTree.{RbOps, to_list}
use blktrace.Parse.Tracks.{
  IoTrack, TrackTree, TrackOptions, __find_track, update_track, find_track, log_track_frontmerge,
  log_track_getrq, log_track_insert, log_track_issue, log_track_complete,
}
use blktrace.Parse.Tracks.Tree.{Strict, entry, tracked}
use blktrace.Parse.Tracks.Change.{
  tracked-rb_erase, tracked-update_track, then_apply, __find_track-sector,
}
use mathlib.Core.Option.{some-injective}
use blktrace.Parse.Tracks.Insert.{tracked-track_rb_insert}

-- The tree of a device, with entries whose sectors are in order.
abbrev pub IsTree : TrackTree → Type 0
IsTree root = Strict (to_list root)

__find_track-some :
    (s : ℕ) (root : TrackTree) {x : IoTrack}
    → tracked s root ≡ some x
    → (place : ℕ) × (__find_track s root ≡ some (place, x))
unfolding tracked
__find_track-some s root {x} h = elim (Option-cases (__find_track s root)) [
  | inl e ↦ cc (sym h, ap entry e)
  | inr ((place, y), e) ↦ (place, e ∙ ground (arith, ap entry e, h))
]

__find_track-none : (s : ℕ) (root : TrackTree) → tracked s root ≡ none → __find_track s root ≡ none
unfolding tracked
__find_track-none s root h = elim (Option-cases (__find_track s root)) [
  | inl e ↦ e
  | inr (p, e) ↦ cc (sym h, ap entry e)
]

module _ (ops : RbOps) (hash : Hash) where
  -- What find_track is to leave: the sector is in the map, with the entry returned.
  record FoundTrack (raw : IoTrack) (s : ℕ) (root : TrackTree)
      (out : TrackTree × Processes × IoTrack) : Type 0 where
    tree : IsTree out.0
    sector : out.2.sector ≡ s
    map : (q : ℕ) → tracked q out.0 ≡ (if s == q then some out.2 else tracked q root)
    old : (x : IoTrack) → tracked s root ≡ some x → out.2 ≡ x
    new : tracked s root ≡ none → (out.2.allocation_time ≡ raw.allocation_time)

  find_track-FoundTrack :
      (raw : IoTrack) (pid s : ℕ) (root : TrackTree) (ps : Processes)
      → IsTree root
      → FoundTrack raw s root (find_track ops hash raw pid s root ps)
  unfolding find_track
  find_track-FoundTrack raw pid s root ps o = elim (Option-cases (tracked s root)) [
    | inr (x, h) ↦
        let (place, e) = __find_track-some s root h in
        rw (e, find_track)
          (record {
            tree = o;
            sector = __find_track-sector s place root e;
            map = λ q. here x h q;
            old = λ y k. some-injective x y (sym h ∙ k);
            new = λ k. cc (sym h, k);
          })
    | inl h ↦
        let iot : IoTrack = record raw {
          ppm = (add_ppm_hash hash pid (unknown hash) ps).1;
          sector = s;
        } in
        rw (__find_track-none s root h, find_track)
          (record {
            tree = (tracked-track_rb_insert ops hash iot s root o h).0;
            sector = refl;
            map = λ q. (tracked-track_rb_insert ops hash iot q root o h).1;
            old = λ x k. cc (sym h, k);
            new = λ k. refl;
          })
  ]
    where
      here :
          (x : IoTrack)
          → tracked s root ≡ some x
          → (q : ℕ) → tracked q root ≡ (if s == q then some x else tracked q root)
      here x h q = elim (Bool-cases (s == q)) [
        | inl e ↦ rw e (subst (λ k. tracked k root ≡ some x) ((==_iff s q).0 e) h)
        | inr e ↦ rw e
      ]

  -- An assignment through the pointer that find_track returns.
  module _ (f : IoTrack → IoTrack) (keeps : (x : IoTrack) → (f x).sector ≡ x.sector) where
    FoundTrack-update_track :
        (raw : IoTrack) (s : ℕ) (root : TrackTree) (out : TrackTree × Processes × IoTrack)
        → FoundTrack raw s root out
        → IsTree (update_track s f out.0)
          × ((q : ℕ)
              → tracked q (update_track s f out.0)
                ≡ (if s == q then some (f out.2) else tracked q root))
    FoundTrack-update_track raw s root out v = (
      (tracked-update_track f keeps s s out.0 v.tree).0,
      λ q. (tracked-update_track f keeps s q out.0 v.tree).1 ∙ (rw (v.map q) (merge q)),
    )
      where
        merge :
            (q : ℕ)
            → (if s == q
                then then_apply f (if s == q then some out.2 else tracked q root)
                else (if s == q then some out.2 else tracked q root))
              ≡ (if s == q then some (f out.2) else tracked q root)
        merge q = elim (Bool-cases (s == q)) [ inl e ↦ rw e | inr e ↦ rw e ]

  -- What a function has left of the map: the entry of one sector, and all others as they were.
  abbrev pub Sets : ℕ → IoTrack → TrackTree → TrackTree → Type 0
  Sets s x root root' =
      IsTree root' × ((q : ℕ) → tracked q root' ≡ (if s == q then some x else tracked q root))

  Sets-update_track :
      (f : IoTrack → IoTrack)
      → ((x : IoTrack) → (f x).sector ≡ x.sector)
      → (s : ℕ) (x : IoTrack) (root : TrackTree) → IsTree root
      → tracked s root ≡ some x
      → Sets s (f x) root (update_track s f root)
  Sets-update_track f keeps s x root o h = (
    (tracked-update_track f keeps s s root o).0,
    λ q. (tracked-update_track f keeps s q root o).1 ∙ merge q,
  )
    where
      merge :
          (q : ℕ)
          → (if s == q then then_apply f (tracked q root) else tracked q root)
            ≡ (if s == q then some (f x) else tracked q root)
      merge q = elim (Bool-cases (s == q)) [
        | inl e ↦ rw (e, subst (λ k. tracked k root ≡ some x) ((==_iff s q).0 e) h)
        | inr e ↦ rw e
      ]

  find_track_old :
      (raw : IoTrack) (pid s : ℕ) (root : TrackTree) (ps : Processes) {x : IoTrack}
      → tracked s root ≡ some x
      → find_track ops hash raw pid s root ps ≡ (root, ps, x)
  unfolding find_track
  find_track_old raw pid s root ps h =
      let (place, e) = __find_track-some s root h in rw (e, find_track)

  module _ (opts : TrackOptions) (on : opts.track_ios ≡ true) where
    pub log_track_getrq-Sets :
        (raw : IoTrack) (t : BlkIoTrace) (root : TrackTree) (ps : Processes)
        → IsTree root
        → Sets t.sector
            (record (find_track ops hash raw t.pid t.sector root ps).2 { allocation_time = t.time })
            root
            (log_track_getrq ops hash opts raw t root ps).0
    unfolding log_track_getrq
    log_track_getrq-Sets raw t root ps o =
        rw (on, log_track_getrq)
          (FoundTrack-update_track (λ x. record x { allocation_time = t.time }) (λ x. refl) raw
            t.sector root _ (find_track-FoundTrack raw t.pid t.sector root ps o))

    -- The entry is there already.
    pub log_track_insert-Sets :
        (raw : IoTrack) (t : BlkIoTrace) (x : IoTrack) (root : TrackTree) (ps : Processes)
        → IsTree root
        → tracked t.sector root ≡ some x
        → x.allocation_time ≢ 0
        → ((log_track_insert ops hash opts raw t root ps).0 ≡ sub64 t.time x.allocation_time)
          × Sets t.sector
              (record x { queue_time = t.time })
              root
              (log_track_insert ops hash opts raw t root ps).1
    unfolding log_track_insert
    log_track_insert-Sets raw t x root ps o h nz =
        rw
          (
            on,
            find_track_old raw t.pid t.sector root ps h,
            ==_false x.allocation_time 0 nz,
            log_track_insert,
          )
          (
            refl,
            Sets-update_track (λ y. record y { queue_time = t.time }) (λ y. refl) t.sector x root o
                h,
          )

    pub log_track_issue-Sets :
        (t : BlkIoTrace) (x : IoTrack) (root : TrackTree) (ps : Processes)
        → has_bits t.action (Tc.act Tc.fs) ≡ true
        → IsTree root
        → tracked t.sector root ≡ some x
        → ((log_track_issue ops hash opts t root ps).0 ≡ sub64 t.time x.queue_time)
          × Sets t.sector
              (record x { dispatch_time = t.time })
              root
              (log_track_issue ops hash opts t root ps).1
    unfolding log_track_issue
    log_track_issue-Sets t x root ps fs o h =
        let (place, e) = __find_track-some t.sector root h in
        rw (on, fs, e, log_track_issue)
          (
            refl,
            Sets-update_track (λ y. record y { dispatch_time = t.time }) (λ y. refl) t.sector x root
                o h,
          )

    -- log_track_complete, with tracking on, whatever the tree holds: the value is the time from
    -- dispatch to completion of the request of that sector, modulo 2 ^ 64, or -1 if there is none;
    -- afterwards the sector is free and the request of every other sector is as it was.
    pub log_track_complete_lem :
        (t : BlkIoTrace) (root : TrackTree) (ps : Processes)
        → IsTree root
        → ((log_track_complete ops hash opts t root ps).0
            ≡ elim (tracked t.sector root) [ none ↦ max64 | some x ↦ sub64 t.time x.dispatch_time ])
          × IsTree (log_track_complete ops hash opts t root ps).1
          × ((q : ℕ)
              → tracked q (log_track_complete ops hash opts t root ps).1
                ≡ (if t.sector == q then none else tracked q root))
    unfolding log_track_complete
    log_track_complete_lem t root ps o = elim (Option-cases (tracked t.sector root)) [
      | inl h ↦
          rw (on, h, __find_track-none t.sector root h, log_track_complete) (refl, o, λ q. gone h q)
      | inr (x, h) ↦
          let (place, e) = __find_track-some t.sector root h in
          rw (on, h, e, log_track_complete)
            (
              refl,
              (tracked-rb_erase ops root t.sector t.sector place x o e).0,
              λ q. (tracked-rb_erase ops root t.sector q place x o e).1,
            )
    ]
      where
        gone :
            tracked t.sector root ≡ none
            → (q : ℕ) → tracked q root ≡ (if t.sector == q then none else tracked q root)
        gone h q = elim (Bool-cases (t.sector == q)) [
          | inl e ↦ rw e (subst (λ k. tracked k root ≡ none) ((==_iff t.sector q).0 e) h)
          | inr e ↦ rw e
        ]

    -- log_track_frontmerge of a trace in front of a tracked request, with tracking on and the new
    -- sector free: the request moves to the sector of the trace, and the other sectors stay.
    pub log_track_frontmerge_lem :
        (t : BlkIoTrace) (x : IoTrack) (root : TrackTree)
        → IsTree root
        → t.sector + t_sec t < 2 ^ 64
        → 0 < t_sec t
        → tracked (t.sector + t_sec t) root ≡ some x
        → tracked t.sector root ≡ none
        → IsTree (log_track_frontmerge ops hash opts t root)
          × ((q : ℕ)
              → tracked q (log_track_frontmerge ops hash opts t root) ≡ (
                  if t.sector == q
                  then some (record x { sector = t.sector })
                  else (if (t.sector + t_sec t) == q then none else tracked q root)))
    unfolding log_track_frontmerge
    log_track_frontmerge_lem t x root o lt pos h free =
        let back : add64 t.sector (t_sec t) ≡ t.sector + t_sec t = omega arith in
        let (place, e) = __find_track-some (t.sector + t_sec t) root h in
        let own = __find_track-sector (t.sector + t_sec t) place root e in
        let front : sub64 x.sector (t_sec t) ≡ t.sector = omega (arith, own) in
        let found = subst (λ k. __find_track k root ≡ some (place, x)) (sym back) e in
        let erased = ops.rb_erase place root in
        let gone = λ (q : ℕ). tracked-rb_erase ops root (t.sector + t_sec t) q place x o e in
        let room : tracked t.sector erased ≡ none = (gone t.sector).1 ∙ ground (arith, free) in
        let moved : IoTrack = record x { sector = t.sector } in
        rw (on, found, front, log_track_frontmerge)
          (
            (tracked-track_rb_insert ops hash moved t.sector erased (gone t.sector).0 room).0,
            λ q.
                (tracked-track_rb_insert ops hash moved q erased (gone q).0 room).1
                ∙ ap (λ k. if t.sector == q then some moved else k) (gone q).1,
          )
