-- ===== src/Btt/PLive.antt =====
-- btt/p_live.c: the intervals of time in which a device has active requests. The list all_p_lives has
-- the entries of all trees, only to free them, and is left out.
pub mod Cover
pub mod Adds
pub mod Visit
use blktrace.Common.{
  ℕ, zero, suc, ◌+◌, ◌-◌, ◌*◌, min, max, Bool, true, false, ◌&&◌, ◌||◌, Option, none, some,
  if◌then◌else◌, leb, ltb, add64, sub64, List,
}
use blktrace.Parse.RbTree.{Tree, null, node, RbOps, link, link_place, size}

-- struct p_live
pub record PLive : Type 0 where
  pub dt : ℕ
  pub ct : ℕ

unfoldable pub inside : PLive → ℕ → ℕ → Bool
inside plp dt ct =
    (leb plp.dt dt && leb dt plp.ct)
    || (leb plp.dt ct && leb ct plp.ct)
    || (ltb dt plp.dt && ltb plp.ct ct)

-- The walk of __p_live_add: the first entry on its way that meets the interval, with its place, where
-- `base` entries stand before the subtree.
unfoldable pub walk : ℕ → ℕ → ℕ → Tree PLive → Option (ℕ × PLive)
unfolding inside size
walk dt ct base null = none
walk dt ct base (node l plp r) =
    let left = walk dt ct base l in
    let right = walk dt ct (base + suc (size l)) r in
    if inside plp dt ct then some (base + size l, plp) else if ltb ct plp.dt then left else right

module _ (ops : RbOps) where
  open ops use {rb_insert_color, rb_erase}

  -- __p_live_add, which calls itself with the larger interval after it has erased an entry: as many
  -- times as the tree has entries, at most.
  unfoldable pub __p_live_add : ℕ → Tree PLive → ℕ → ℕ → Tree PLive
  unfolding walk link link_place
  __p_live_add zero root dt ct = root
  __p_live_add (suc fuel) root dt ct = elim (walk dt ct 0 root) [
    | some (place, plp) ↦ __p_live_add fuel (rb_erase place root) (min plp.dt dt) (max plp.ct ct)
    | none ↦
        let left = λ (u : PLive). ltb ct u.dt in
        rb_insert_color (link_place left root) (link left (record { dt = dt; ct = ct }) root)
  ]

  -- p_live_add, on the tree of the device and that of the system
  unfoldable pub p_live_add : Tree PLive × Tree PLive → ℕ → ℕ → Tree PLive × Tree PLive
  unfolding __p_live_add
  p_live_add (handle, p_live_root) dt ct = (
    __p_live_add (suc (size handle)) handle dt ct,
    __p_live_add (suc (size p_live_root)) p_live_root dt ct,
  )

-- struct get_info and the count in its plip. The times are __u64.
pub record GetInfo : Type 0 where
  pub nlives : ℕ
  pub tot_live : ℕ
  pub t_start : ℕ
  pub t_end : ℕ

-- What p_live_visit does at a node; a __u64 is never below 0.0.
unfoldable pub visit_here : PLive → GetInfo → GetInfo
visit_here plp gip = record {
  nlives = add64 gip.nlives 1;
  tot_live = add64 gip.tot_live (sub64 plp.ct plp.dt);
  t_start = if ltb gip.t_start 0 || ltb plp.dt gip.t_start then plp.dt else gip.t_start;
  t_end = if ltb gip.t_end 0 || ltb gip.t_end plp.ct then plp.ct else gip.t_end;
}

-- p_live_visit, without the output
unfoldable pub p_live_visit : Tree PLive → GetInfo → GetInfo
unfolding visit_here
p_live_visit null gip = gip
p_live_visit (node l plp r) gip = p_live_visit r (visit_here plp (p_live_visit l gip))

-- The visit that p_live_get makes, from the values that it starts with
unfoldable pub p_live_get : Tree PLive → GetInfo
unfolding p_live_visit
p_live_get root = p_live_visit root (record { nlives = 0; tot_live = 0; t_start = 0; t_end = 0 })
