-- ===== src/Parse/Sorting.antt =====
-- The trees of traces of blkparse.c: trace_rb_insert and trace_rb_find.
pub mod Laws
use blktrace.Common.{
  ℕ, zero, suc, ◌+◌, ◌-◌, Bool, true, false, ◌&&◌, Option, none, some, if◌then◌else◌, ◌==◌, ltb,
  List, [], ◌∷◌, get_elem?,
}
use blktrace.Trace.Record.{BlkIoTrace}
use blktrace.Parse.RbTree.{Tree, null, node, RbOps, link, link_place, size, to_list}

-- struct trace, without its links
pub record Trace : Type 0 where
  pub bit : BlkIoTrace
  pub read_sequence : ℕ

-- Does trace_rb_insert go left from __t with t? By time, then device, then sequence.
unfoldable pub trace_before : Trace → Trace → Bool
trace_before t u =
    if ltb t.bit.time u.bit.time
    then true
    else if ltb u.bit.time t.bit.time
    then false
    else if ltb t.bit.device u.bit.device
    then true
    else if ltb u.bit.device t.bit.device
    then false
    else ltb t.bit.sequence u.bit.sequence

module _ (ops : RbOps) where
  open ops use {rb_insert_color, rb_next}

  unfoldable pub trace_rb_insert : Trace → Tree Trace → Tree Trace
  trace_rb_insert t root =
      rb_insert_color (link_place (trace_before t) root) (link (trace_before t) t root)

  -- The search loop of trace_rb_find, with the place of the first entry of the subtree: the place
  -- of the trace found, or that of the last node met (prev), if any.
  pub data Search : Type 0 where
    found : ℕ → Trace → Search
    stopped : Option ℕ → Search

  unfoldable pub search_trace : ℕ → ℕ → ℕ → Option ℕ → Tree Trace → Search
  search_trace device sequence base prev null = stopped prev
  search_trace device sequence base prev (node l u r) =
      let here = base + size l in
      let left = search_trace device sequence base (some here) l in
      let right = search_trace device sequence (here + 1) (some here) r in
      if ltb device u.bit.device
      then left
      else if ltb u.bit.device device
      then right
      else if ltb sequence u.bit.sequence
      then left
      else if ltb u.bit.sequence sequence
      then right
      else found here u

  -- `while (((n = rb_next(prev)) != NULL) && max--)`, looking ahead from a place
  unfoldable pub browse : ℕ → ℕ → ℕ → ℕ → Tree Trace → Option (ℕ × Trace)
  browse zero device sequence place root = none
  browse (suc max) device sequence place root =
      let rest = browse max device sequence (place + 1) root in
      elim (rb_next place root) [
        | none ↦ none
        | some u ↦
            if (u.bit.device == device) && (u.bit.sequence == sequence)
            then some (place + 1, u)
            else rest
      ]

  -- trace_rb_find, with the place of the trace found
  unfoldable pub trace_rb_find : ℕ → ℕ → Tree Trace → Bool → Option (ℕ × Trace)
  unfolding search_trace browse
  trace_rb_find device sequence root order = elim (search_trace device sequence 0 none root) [
    | found place u ↦ some (place, u)
    | stopped none ↦ none
    | stopped (some place) ↦ if order then browse 5 device sequence place root else none
  ]
