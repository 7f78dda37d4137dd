-- ===== src/Btt/IoTree.antt =====
-- btt/dip_rb.c: the requests of one device and type, in a tree by their first sectors. A struct io is
-- named by its trace.
pub mod Finds
use blktrace.Common.{
  ℕ, ◌/◌, ◌^◌, Bool, true, false, ◌&&◌, Option, none, some, List, [], ◌∷◌, ◌++◌, if◌then◌else◌, leb,
  ltb, add64,
}
use blktrace.Trace.Record.{BlkIoTrace}
use blktrace.Parse.RbTree.{Tree, null, node, RbOps, link, link_place}

-- BIT_START
unfoldable pub io_start : BlkIoTrace → ℕ
io_start t = t.sector

-- BIT_END
unfoldable pub io_end : BlkIoTrace → ℕ
io_end t = add64 t.sector (t.bytes / 2 ^ 9)

-- Does the walk of rb_insert meet a request with the same first sector?
unfoldable pub meets_start : ℕ → Tree BlkIoTrace → Bool
unfolding io_start
meets_start s null = false
meets_start s (node l __iop r) =
    let left = meets_start s l in
    let right = meets_start s r in
    if ltb s (io_start __iop) then left else if ltb (io_start __iop) s then right else true

-- rb_insert; `none` is the result 0, with the tree as it was.
unfoldable pub rb_insert : RbOps → Tree BlkIoTrace → BlkIoTrace → Option (Tree BlkIoTrace)
unfolding io_start meets_start
rb_insert ops root iop =
    if meets_start (io_start iop) root
    then none
    else let left = λ (t : BlkIoTrace). ltb (io_start iop) (io_start t) in
      some (ops.rb_insert_color (link_place left root) (link left iop root))

unfoldable pub rb_find_sec : Tree BlkIoTrace → ℕ → Option BlkIoTrace
unfolding io_start io_end
rb_find_sec null sec = none
rb_find_sec (node l __iop r) sec =
    let left = rb_find_sec l sec in
    let right = rb_find_sec r sec in
    if ltb sec (io_start __iop) then left else if leb (io_end __iop) sec then right else some __iop

-- rb_foreach, with `head` and no function: what it adds to the list, for a request from `iop_s` to `iop_e`
unfoldable pub rb_foreach : ℕ → ℕ → Tree BlkIoTrace → List BlkIoTrace
unfolding io_start io_end
rb_foreach iop_s iop_e null = []
rb_foreach iop_s iop_e (node l this r) =
    let left = rb_foreach iop_s iop_e l in
    let right = rb_foreach iop_s iop_e r in
    (if leb iop_s (io_start this) && leb (io_end this) iop_e then this ∷ [] else [])
    ++ ((if ltb iop_s (io_start this) then left else [])
        ++ (if ltb (io_end this) iop_e then right else []))
