-- ===== src/Iomon/Devices.antt =====
-- The statistics of blkiomon.c by device: the two trees of struct dstat, of which one gathers while
-- the other is put out. A struct dstat is named by its device, and dstat_list by the devices.
pub mod Lookup
pub mod Accounts
pub mod Interval
use blktrace.Common.{
  ℕ, zero, suc, Bool, Option, none, some, List, [], ◌∷◌, if◌then◌else◌, ◌==◌, ltb,
}
use blktrace.Trace.Record.{BlkIoTrace}
use blktrace.Parse.RbTree.{Tree, null, node, RbOps, link, link_place}
use blktrace.Iomon.{BlkiomonStat, blkiomon_stat_init, blkiomon_account}

-- One side of dstat_tree and of dstat_list
pub record Dstats : Type 0 where
  pub dstat_tree : Tree BlkiomonStat
  pub dstat_list : List ℕ

abbrev pub no_dstats : Dstats
no_dstats = record { dstat_tree = null; dstat_list = [] }

-- blkiomon_find_dstat
unfoldable pub find_dstat : ℕ → Tree BlkiomonStat → Option BlkiomonStat
find_dstat device null = none
find_dstat device (node l dstat r) =
    let left = find_dstat device l in
    let right = find_dstat device r in
    if ltb dstat.device device then left else if ltb device dstat.device then right else some dstat

-- A new node goes left of those with a smaller device.
unfoldable pub goes_before : BlkiomonStat → BlkiomonStat → Bool
goes_before x y = ltb y.device x.device

-- blkiomon_get_dstat, where memory is allocated: the statistics of the device, and the side with
-- them in it.
unfoldable pub get_dstat : RbOps → ℕ → Dstats → BlkiomonStat × Dstats
unfolding find_dstat goes_before blkiomon_stat_init
get_dstat ops device g = elim (find_dstat device g.dstat_tree) [
  | some dstat ↦ (dstat, g)
  | none ↦
      let dstat : BlkiomonStat = record blkiomon_stat_init { device = device } in
      (
        dstat,
        record {
          dstat_tree =
              ops.rb_insert_color (link_place (goes_before dstat) g.dstat_tree)
                (link (goes_before dstat) dstat g.dstat_tree);
          dstat_list = device ∷ g.dstat_list;
        },
      )
]

-- A write through the pointer to the statistics of a device
unfoldable pub put_dstat : BlkiomonStat → Tree BlkiomonStat → Tree BlkiomonStat
put_dstat p null = null
put_dstat p (node l dstat r) =
    if ltb dstat.device p.device
    then node (put_dstat p l) dstat r
    else if ltb p.device dstat.device
    then node l dstat (put_dstat p r)
    else node l p r

-- blkiomon_account; `none` is its division by zero.
unfoldable pub account_dstat : RbOps → BlkIoTrace → BlkIoTrace → Dstats → Option Dstats
account_dstat ops bit_d bit_c g =
    let (p, g') = get_dstat ops bit_d.device g in
    elim (blkiomon_account bit_d bit_c p) [
      | none ↦ none
      | some p' ↦ some (record g' { dstat_tree = put_dstat p' g'.dstat_tree })
    ]

-- dstat_tree[dstat_curr], with its list, and those of the other index
pub record Gathering : Type 0 where
  pub current : Dstats
  pub other : Dstats

-- The statistics that blkiomon_output puts out: `ts->tv_sec`, and the statistics of the device
unfoldable pub output_dstats : ℕ → List ℕ → Tree BlkiomonStat → List BlkiomonStat
unfolding find_dstat
output_dstats tv_sec [] t = []
output_dstats tv_sec (device ∷ devices) t =
    let rest = output_dstats tv_sec devices t in
    elim (find_dstat device t) [ none ↦ rest | some s ↦ record s { time = tv_sec } ∷ rest ]

-- One turn of blkiomon_interval's loop, at a wake-up that was not interrupted
unfoldable pub blkiomon_interval : ℕ → Gathering → List BlkiomonStat × Gathering
unfolding output_dstats
blkiomon_interval tv_sec g =
    let finished = g.current in
    (
      output_dstats tv_sec finished.dstat_list finished.dstat_tree,
      record { current = g.other; other = no_dstats },
    )
