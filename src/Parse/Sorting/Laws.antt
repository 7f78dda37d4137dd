-- ===== src/Parse/Sorting/Laws.antt =====
-- The sort tree of blkparse.c is a sorted list with a stable insertion.
use blktrace.Common.{
  ◌≡◌, ◌<◌, refl, ap, ◌∙◌, true, false, List, [], ◌∷◌, ◌++◌, arith, Bool-cases, inl, inr, All,
  All-weaken, ltb,
}
use blktrace.Parse.RbTree.{Tree, RbOps, to_list, link, link_place}
use blktrace.Parse.RbTree.Sorted.{insert, IsSorted, to_list-link, insert-IsSorted}
use blktrace.Parse.Sorting.{Trace, trace_before, trace_rb_insert}

trace_before_trans :
    (x y z : Trace) → trace_before x y ≡ false → trace_before y z ≡ false → trace_before x z ≡ false
unfolding trace_before
trace_before_trans x y z p q = ground arith

trace_before_asym : (x y : Trace) → trace_before x y ≡ true → trace_before y x ≡ false
unfolding trace_before
trace_before_asym x y p = ground arith

trace_before_later :
    (x y z : Trace) → trace_before x y ≡ true → trace_before z y ≡ false → trace_before x z ≡ true
unfolding trace_before
trace_before_later x y z p q = ground arith

-- The trace t belongs before u: by its time, by its device if the times are equal, and by its sequence
-- number if the devices are too.
pub data Precedes (t u : Trace) : Type 0 where
  earlier : t.bit.time < u.bit.time → Precedes t u
  same_time : t.bit.time ≡ u.bit.time → t.bit.device < u.bit.device → Precedes t u
  same_device :
      t.bit.time ≡ u.bit.time
      → t.bit.device ≡ u.bit.device
      → t.bit.sequence < u.bit.sequence
      → Precedes t u

-- The trace t precedes u, or has its time, device and sequence number.
pub data NotAfter (t u : Trace) : Type 0 where
  before : Precedes t u → NotAfter t u
  equal :
      t.bit.time ≡ u.bit.time
      → t.bit.device ≡ u.bit.device
      → t.bit.sequence ≡ u.bit.sequence
      → NotAfter t u

trace_before-Precedes : (t u : Trace) → trace_before t u ≡ true → Precedes t u
unfolding trace_before
trace_before-Precedes t u h = elim (Bool-cases (ltb t.bit.time u.bit.time)) [
  | inl e ↦ earlier (ground arith)
  | inr e ↦ elim (Bool-cases (ltb t.bit.device u.bit.device)) [
    | inl d ↦ same_time (ground arith) (ground arith)
    | inr d ↦ same_device (ground arith) (ground arith) (ground arith)
  ]
]

Precedes-trace_before : (t u : Trace) → Precedes t u → trace_before u t ≡ false
unfolding trace_before
Precedes-trace_before t u (earlier h) = ground (arith, h)
Precedes-trace_before t u (same_time h d) = ground (arith, h, d)
Precedes-trace_before t u (same_device h d s) = ground (arith, h, d, s)

NotAfter-trace_before : (t u : Trace) → NotAfter t u → trace_before u t ≡ false
unfolding trace_before
NotAfter-trace_before t u (before h) = Precedes-trace_before t u h
NotAfter-trace_before t u (equal h d s) = ground (arith, h, d, s)

trace_before-NotAfter : (t u : Trace) → trace_before u t ≡ false → NotAfter t u
unfolding trace_before
trace_before-NotAfter t u h = elim (Bool-cases (trace_before t u)) [
  | inl e ↦ before (trace_before-Precedes t u e)
  | inr e ↦ equal (ground (arith, h, e)) (ground (arith, h, e)) (ground (arith, h, e))
]

-- No trace of the list precedes one that stands before it.
abbrev pub InOrder : List Trace → Type 0
InOrder [] = Unit {0}
InOrder (t ∷ l) = All (NotAfter t) l × InOrder l

InOrder-IsSorted : (l : List Trace) → InOrder l → IsSorted trace_before l
InOrder-IsSorted [] o = tt
InOrder-IsSorted (t ∷ l) o = (
  All-weaken (NotAfter t) (λ u. trace_before u t ≡ false) l (λ u. NotAfter-trace_before t u) o.0,
  InOrder-IsSorted l o.1,
)

IsSorted-InOrder : (l : List Trace) → IsSorted trace_before l → InOrder l
IsSorted-InOrder [] o = tt
IsSorted-InOrder (t ∷ l) o = (
  All-weaken (λ u. trace_before u t ≡ false) (NotAfter t) l (λ u. trace_before-NotAfter t u) o.0,
  IsSorted-InOrder l o.1,
)

-- Where a trace stands in a list that has it in its place
pub record Placed (t : Trace) (l l' : List Trace) : Type 0 where
  pub front : List Trace
  pub back : List Trace
  pub was : l ≡ front ++ back
  pub is : l' ≡ front ++ t ∷ back
  pub not_after : All (λ u. NotAfter u t) front
  pub precedes : All (Precedes t) back

insert-Placed :
    (t : Trace) (l : List Trace) → IsSorted trace_before l → Placed t l (insert trace_before t l)
unfolding insert
insert-Placed t [] s = record {
  front = [];
  back = [];
  was = refl;
  is = refl;
  not_after = tt;
  precedes = tt;
}
insert-Placed t (u ∷ l) s = elim (Bool-cases (trace_before t u)) [
  | inl h ↦ rw h (record {
    front = [];
    back = u ∷ l;
    was = refl;
    is = refl;
    not_after = tt;
    precedes = (
      trace_before-Precedes t u h,
      All-weaken (λ z. trace_before z u ≡ false) (Precedes t) l
          (λ z g. trace_before-Precedes t z (trace_before_later t u z h g)) s.0,
    );
  })
  | inr h ↦
      let p = insert-Placed t l s.1 in
      rw h (record {
        front = u ∷ p.front;
        back = p.back;
        was = ap (◌∷◌ u) p.was;
        is = ap (◌∷◌ u) p.is;
        not_after = (trace_before-NotAfter u t h, p.not_after);
        precedes = p.precedes;
      })
]

-- Whatever rebalancing does: if the traces of a tree are in the order of time, then device, then
-- sequence number, trace_rb_insert(t, root) puts t between two parts of them, so that no trace of the
-- part before comes after t, and t precedes all those of the part behind; and they are in order again.
pub trace_rb_insert-Placed :
    (ops : RbOps) (t : Trace) (root : Tree Trace)
    → InOrder (to_list root)
    → Placed t (to_list root) (to_list (trace_rb_insert ops t root))
      × InOrder (to_list (trace_rb_insert ops t root))
unfolding trace_rb_insert
trace_rb_insert-Placed ops t root o =
    let s = InOrder-IsSorted (to_list root) o in
    let e =
      ops.rb_insert_color_lem (link_place (trace_before t) root) (link (trace_before t) t root)
      ∙ to_list-link trace_before trace_before_trans t root s in
    (
      rw e (insert-Placed t (to_list root) s),
      rw e (
          IsSorted-InOrder (insert trace_before t (to_list root))
            (insert-IsSorted trace_before trace_before_trans trace_before_asym t (to_list root) s)),
    )
