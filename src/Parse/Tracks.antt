-- ===== src/Parse/Tracks.antt =====
-- The tracking of single requests in blkparse.c: the tree rb_track of a device and the functions
-- log_track_*. A node is named by its sector, which no two nodes of the tree share.
pub mod Tree
pub mod Change
pub mod Insert
pub mod Laws
pub mod Lifecycle
use blktrace.Common.{
  ℕ, ◌+◌, ◌-◌, ◌%◌, ◌^◌, Bool, true, false, not, ◌&&◌, ◌||◌, Option, none, some, List,
  if◌then◌else◌, ◌==◌, ltb, add64, sub64, max64, has_bits,
}
use blktrace.Trace.Record.{BlkIoTrace}
use blktrace.Trace.Header.{major, t_sec}
use blktrace.Trace.Tc
use blktrace.Parse.Processes.{
  ProcessPidMap, PerProcessInfo, Processes, Hash, Pair, at_rw, set_rw, add_ppm_hash, unknown,
  find_ppi, update_ppi,
}
use blktrace.Parse.RbTree
use blktrace.Parse.RbTree.{RbOps, null, node, link_place, size}

-- struct io_track
pub record IoTrack : Type 0 where
  pub ppm : ProcessPidMap
  pub sector : ℕ
  pub allocation_time : ℕ
  pub queue_time : ℕ
  pub dispatch_time : ℕ
  pub completion_time : ℕ

abbrev pub TrackTree : Type 0
TrackTree = RbTree.Tree IoTrack

-- The static options that the tracking reads.
pub record TrackOptions : Type 0 where
  pub track_ios : Bool
  pub per_process_stats : Bool
  pub ppi_hash_by_pid : Bool

-- The walk of track_rb_insert and rb_link_node; `none` is a sector alias.
unfoldable pub link_track : IoTrack → TrackTree → Option TrackTree
link_track iot null = some (node null iot null)
link_track iot (node l x r) =
    let left = link_track iot l in
    let right = link_track iot r in
    if ltb iot.sector x.sector
    then (elim left [ none ↦ none | some l' ↦ some (node l' x r) ])
    else if ltb x.sector iot.sector
    then (elim right [ none ↦ none | some r' ↦ some (node l x r') ])
    else none

-- The search loop of __find_track, with the place of the subtree's first entry
unfoldable pub find_place : ℕ → ℕ → TrackTree → Option (ℕ × IoTrack)
find_place sector base null = none
find_place sector base (node l x r) =
    let left = find_place sector base l in
    let right = find_place sector (base + size l + 1) r in
    if ltb sector x.sector
    then left
    else if ltb x.sector sector
    then right
    else some (base + size l, x)

unfoldable pub __find_track : ℕ → TrackTree → Option (ℕ × IoTrack)
unfolding find_place
__find_track sector root = find_place sector 0 root

-- An assignment to the fields of the entry that __find_track finds
unfoldable pub update_track : ℕ → (IoTrack → IoTrack) → TrackTree → TrackTree
update_track sector f null = null
update_track sector f (node l x r) =
    if ltb sector x.sector
    then node (update_track sector f l) x r
    else if ltb x.sector sector
    then node l x (update_track sector f r)
    else node l (f x) r

-- is_remapper: the major numbers of device mapper and md
unfoldable pub is_remapper : ℕ → Bool
unfolding major
is_remapper dev = (major dev == 253) || (major dev == 9)

-- int w = (t->action & BLK_TC_ACT(BLK_TC_WRITE)) != 0
unfoldable pub is_write : BlkIoTrace → Bool
is_write t = has_bits t.action (Tc.act Tc.write)

module _ (ops : RbOps) (hash : Hash) where
  open ops use {rb_insert_color, rb_erase}

  -- track_rb_insert; an alias leaves the tree as it is.
  unfoldable pub track_rb_insert : IoTrack → TrackTree → TrackTree
  unfolding link_track
  track_rb_insert iot root = elim (link_track iot root) [
    | none ↦ root
    | some root' ↦ rb_insert_color (link_place (λ x. ltb iot.sector x.sector) root) root'
  ]

  -- find_track: the tree, the process tables and the entry. A new entry is not cleared: its times
  -- are what malloc returns, `raw`.
  unfoldable pub find_track :
      IoTrack → ℕ → ℕ → TrackTree → Processes → TrackTree × Processes × IoTrack
  unfolding __find_track add_ppm_hash track_rb_insert
  find_track raw pid sector root ps = elim (__find_track sector root) [
    | some (place, iot) ↦ (root, ps, iot)
    | none ↦
        let (ps', ppm) = add_ppm_hash hash pid (unknown hash) ps in
        let iot : IoTrack = record raw { ppm = ppm; sector = sector } in
        (track_rb_insert iot root, ps', iot)
  ]

  unfoldable pub log_track_frontmerge : TrackOptions → BlkIoTrace → TrackTree → TrackTree
  unfolding __find_track track_rb_insert t_sec
  log_track_frontmerge opts t root =
      if not opts.track_ios then root else elim (__find_track (add64 t.sector (t_sec t)) root) [
        | none ↦ root
        | some (place, iot) ↦
            track_rb_insert (record iot { sector = sub64 iot.sector (t_sec t) })
              (rb_erase place root)
      ]

  unfoldable pub log_track_getrq :
      TrackOptions → IoTrack → BlkIoTrace → TrackTree → Processes → TrackTree × Processes
  unfolding find_track update_track
  log_track_getrq opts raw t root ps =
      if not opts.track_ios
      then (root, ps)
      else let (root', ps', iot) = find_track raw t.pid t.sector root ps in
        (update_track t.sector (λ x. record x { allocation_time = t.time }) root', ps')

  unfoldable pub log_track_queue :
      TrackOptions → ℕ → IoTrack → BlkIoTrace → TrackTree → Processes → TrackTree × Processes
  unfolding is_remapper find_track update_track
  log_track_queue opts dev raw t root ps =
      if not opts.track_ios || not (is_remapper dev)
      then (root, ps)
      else let (root', ps', iot) = find_track raw t.pid t.sector root ps in
        (update_track t.sector (λ x. record x { dispatch_time = t.time }) root', ps')

  -- if (ppi && elapsed > ppi->longest_..._wait[w]) ppi->longest_..._wait[w] = elapsed
  abbrev pub longer : ℕ → Bool → Pair → Pair
  longer elapsed w wait = if ltb (at_rw wait w) elapsed then set_rw wait w elapsed else wait

  -- if (per_process_stats) with find_ppi(iot->ppm->pid)
  unfoldable pub note_wait :
      TrackOptions → IoTrack → (PerProcessInfo → PerProcessInfo) → Processes → Processes
  unfolding find_ppi update_ppi
  note_wait opts iot f ps =
      if not opts.per_process_stats
      then ps
      else let (ps', i) = find_ppi hash opts.ppi_hash_by_pid iot.ppm.pid ps in
        elim i [ none ↦ ps' | some k ↦ update_ppi hash k f ps' ]

  -- The value is `elapsed`; -1 is max64.
  unfoldable pub log_track_insert :
      TrackOptions → IoTrack → BlkIoTrace → TrackTree → Processes → ℕ × TrackTree × Processes
  unfolding find_track update_track note_wait is_write
  log_track_insert opts raw t root ps =
      if not opts.track_ios
      then (max64, root, ps)
      else let (root', ps', iot) = find_track raw t.pid t.sector root ps in
        let root'' = update_track t.sector (λ x. record x { queue_time = t.time }) root' in
        let elapsed = sub64 t.time iot.allocation_time in
        if iot.allocation_time == 0 then (max64, root'', ps') else (
          elapsed,
          root'',
          note_wait opts iot
              (λ p. record p {
                longest_allocation_wait = longer elapsed (is_write t) p.longest_allocation_wait;
              })
              ps',
        )

  unfoldable pub log_track_issue :
      TrackOptions → BlkIoTrace → TrackTree → Processes → ℕ × TrackTree × Processes
  unfolding __find_track update_track note_wait is_write
  log_track_issue opts t root ps =
      if not opts.track_ios || not (has_bits t.action (Tc.act Tc.fs))
      then (max64, root, ps)
      else elim (__find_track t.sector root) [
        | none ↦ (max64, root, ps)
        | some (place, iot) ↦
            let elapsed = sub64 t.time iot.queue_time in
            (
              elapsed,
              update_track t.sector (λ x. record x { dispatch_time = t.time }) root,
              note_wait opts iot
                  (λ p. record p {
                    longest_dispatch_wait = longer elapsed (is_write t) p.longest_dispatch_wait;
                  })
                  ps,
            )
      ]

  unfoldable pub log_track_complete :
      TrackOptions → BlkIoTrace → TrackTree → Processes → ℕ × TrackTree × Processes
  unfolding __find_track note_wait is_write
  log_track_complete opts t root ps =
      if not opts.track_ios then (max64, root, ps) else elim (__find_track t.sector root) [
        | none ↦ (max64, root, ps)
        | some (place, iot) ↦
            let elapsed = sub64 t.time iot.dispatch_time in
            (
              elapsed,
              rb_erase place root,
              note_wait opts iot
                  (λ p. record p {
                    longest_completion_wait = longer elapsed (is_write t) p.longest_completion_wait;
                  })
                  ps,
            )
      ]
