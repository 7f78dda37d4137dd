-- ===== src/Parse/Tracks/Lifecycle.antt =====
-- The life of one request in the tracking of blkparse.c: allocated, inserted, issued, completed.
use blktrace.Common.{
  ℕ, ◌≡◌, ◌≢◌, refl, ◌∙◌, true, Option, none, some, if◌then◌else◌, ◌==◌, ==_refl, Bool-cases, inl,
  inr, sub64, has_bits,
}
use blktrace.Trace.Record.{BlkIoTrace}
use blktrace.Trace.Tc
use blktrace.Parse.Processes.{Processes, Hash}
use blktrace.Parse.RbTree.{RbOps}
use blktrace.Parse.Tracks.{
  IoTrack, TrackTree, TrackOptions, find_track, log_track_getrq, log_track_insert, log_track_issue,
  log_track_complete,
}
use blktrace.Parse.Tracks.Tree.{tracked}
use blktrace.Parse.Tracks.Laws.{
  IsTree, Sets, log_track_getrq-Sets, log_track_insert-Sets, log_track_issue-Sets,
  log_track_complete_lem,
}

-- What the four traces of a request measure, and the tree they leave.
pub record Life : Type 0 where
  pub insert_elapsed : ℕ
  pub issue_elapsed : ℕ
  pub complete_elapsed : ℕ
  pub root : TrackTree

module _ (ops : RbOps) (hash : Hash) where
  -- A trace G, then I, D and C, with nothing of the same device between them.
  unfoldable pub life :
      TrackOptions
      → IoTrack
      → BlkIoTrace
      → BlkIoTrace
      → BlkIoTrace
      → BlkIoTrace
      → TrackTree
      → Processes
      → Life
  life opts raw g i d c root ps =
      let (root1, ps1) = log_track_getrq ops hash opts raw g root ps in
      let (a, root2, ps2) = log_track_insert ops hash opts raw i root1 ps1 in
      let (b, root3, ps3) = log_track_issue ops hash opts d root2 ps2 in
      let (e, root4, ps4) = log_track_complete ops hash opts c root3 ps3 in
      record { insert_elapsed = a; issue_elapsed = b; complete_elapsed = e; root = root4 }

  Sets-tracked :
      (s : ℕ) (x : IoTrack) (root root' : TrackTree) (k : ℕ)
      → k ≡ s
      → Sets ops hash s x root root'
      → tracked k root' ≡ some x
  Sets-tracked s x root root' k e h = h.1 k ∙ rw (e, ==_refl s) refl

  settle :
      (s q : ℕ) (a b : IoTrack) (x : Option IoTrack)
      → (if s == q then some a else (if s == q then some b else x)) ≡ (if s == q then some a else x)
  settle s q a b x = elim (Bool-cases (s == q)) [ inl e ↦ rw e refl | inr e ↦ rw e refl ]

  -- Two assignments to the entry of one sector are the last one.
  Sets-Sets :
      (s k : ℕ) (a b : IoTrack) (root root' root'' : TrackTree)
      → k ≡ s
      → Sets ops hash s a root root'
      → Sets ops hash k b root' root''
      → Sets ops hash s b root root''
  Sets-Sets s k a b root root' root'' e h h' =
      (h'.0, λ q. h'.1 q ∙ rw (e, h.1 q) (settle s q b a (tracked q root)))

  forget :
      (s q : ℕ) (a : IoTrack) (x : Option IoTrack)
      → (if s == q then none else (if s == q then some a else x)) ≡ (if s == q then none else x)
  forget s q a x = elim (Bool-cases (s == q)) [ inl e ↦ rw e refl | inr e ↦ rw e refl ]

  module _ (opts : TrackOptions) (on : opts.track_ios ≡ true) where
    -- The traces G, I, D and C of one request, tracked on any tree, the time of the first not 0,
    -- and D of the class fs: I measures the time since G, D since I, C since D (modulo 2 ^ 64), and
    -- the sector is free at the end, while the requests of all other sectors are as before.
    pub life_lem :
        (raw : IoTrack) (g i d c : BlkIoTrace) (root : TrackTree) (ps : Processes)
        → IsTree root
        → i.sector ≡ g.sector
        → d.sector ≡ g.sector
        → c.sector ≡ g.sector
        → g.time ≢ 0
        → has_bits d.action (Tc.act Tc.fs) ≡ true
        → let l = life opts raw g i d c root ps in
          (l.insert_elapsed ≡ sub64 i.time g.time)
          × (l.issue_elapsed ≡ sub64 d.time i.time)
          × (l.complete_elapsed ≡ sub64 c.time d.time)
          × IsTree l.root
          × ((q : ℕ) → tracked q l.root ≡ (if g.sector == q then none else tracked q root))
    unfolding life
    life_lem raw g i d c root ps o ei ed ec nz fs =
        let x0 : IoTrack = (find_track ops hash raw g.pid g.sector root ps).2 in
        let s1 = log_track_getrq ops hash opts raw g root ps in
        let x1 : IoTrack = record x0 { allocation_time = g.time } in
        let h1 : Sets ops hash g.sector x1 root s1.0 =
          log_track_getrq-Sets ops hash opts on raw g root ps o in
        let s2 = log_track_insert ops hash opts raw i s1.0 s1.1 in
        let x2 : IoTrack = record x1 { queue_time = i.time } in
        let t1 = Sets-tracked g.sector x1 root s1.0 i.sector ei h1 in
        let (m1, h2') = log_track_insert-Sets ops hash opts on raw i x1 s1.0 s1.1 h1.0 t1 nz in
        let h2 : Sets ops hash g.sector x2 root s2.1 =
          Sets-Sets g.sector i.sector x1 x2 root s1.0 s2.1 ei h1 h2' in
        let s3 = log_track_issue ops hash opts d s2.1 s2.2 in
        let x3 : IoTrack = record x2 { dispatch_time = d.time } in
        let t2 = Sets-tracked g.sector x2 root s2.1 d.sector ed h2 in
        let (m2, h3') = log_track_issue-Sets ops hash opts on d x2 s2.1 s2.2 fs h2.0 t2 in
        let h3 : Sets ops hash g.sector x3 root s3.1 =
          Sets-Sets g.sector d.sector x2 x3 root s2.1 s3.1 ed h2 h3' in
        let t3 = Sets-tracked g.sector x3 root s3.1 c.sector ec h3 in
        let (m3, o4, free) = log_track_complete_lem ops hash opts on c s3.1 s3.2 h3.0 in
        (
          m1,
          m2,
          m3 ∙ rw t3 refl,
          o4,
          λ q. free q ∙ rw (ec, h3.1 q) (forget g.sector q x3 (tracked q root)),
        )
