-- ===== src/Parse/Tracks/Insert.antt =====
-- track_rb_insert: a new sector is added to the map, an alias is refused.
use blktrace.Common.{
  ℕ, ◌+◌, ◌<◌, ◌≡◌, refl, ap, sym, ◌∙◌, subst, Bool, false, none, some, List, [], ◌∷◌,
  if◌then◌else◌, ◌==◌, ltb, All, arith, Bool-cases, Option-cases, inl, inr,
}
use blktrace.Parse.RbTree.{RbOps, null, node, to_list, size, link, link_place}
use blktrace.Parse.RbTree.Sorted.{insert, IsSorted, to_list-link}
use blktrace.Parse.Tracks.{
  IoTrack, TrackTree, link_track, find_place, __find_track, track_rb_insert,
}
use blktrace.Parse.Processes.{Hash}
use blktrace.Parse.Tracks.Tree.{Strict, lookup, entry, tracked, tracked-lookup}

abbrev before : IoTrack → IoTrack → Bool
before x y = ltb x.sector y.sector

before_trans : (x y z : IoTrack) → before x y ≡ false → before y z ≡ false → before x z ≡ false
before_trans x y z p q = ground arith

Strict-IsSorted : (l : List IoTrack) → Strict l → IsSorted before l
Strict-IsSorted [] o = tt
Strict-IsSorted (x ∷ l) o = (later l o.0, Strict-IsSorted l o.1)
  where
    later : (k : List IoTrack) → All (λ y. x.sector < y.sector) k → All (λ y. before y x ≡ false) k
    later [] a = tt
    later (y ∷ k) a = (ground arith, later k a.1)

link_track-link :
    (iot : IoTrack) (base : ℕ) (t : TrackTree)
    → find_place iot.sector base t ≡ none
    → link_track iot t ≡ some (link (before iot) iot t)
unfolding link_track find_place link
link_track-link iot base null e = refl
link_track-link iot base (node l x r) e = elim (Bool-cases (ltb iot.sector x.sector)) [
  | inl lt ↦ ground (arith, lt, link_track-link iot base l)
  | inr ge ↦ ground (arith, ge, link_track-link iot (base + size l + 1) r)
]

link_track_alias :
    (iot : IoTrack) (base : ℕ) (t : TrackTree) {p : ℕ × IoTrack}
    → find_place iot.sector base t ≡ some p
    → link_track iot t ≡ none
unfolding link_track find_place
link_track_alias iot base null e = cc
link_track_alias iot base (node l x r) {p} e = elim (Bool-cases (ltb iot.sector x.sector)) [
  | inl lt ↦ ground (arith, lt, link_track_alias iot base l {p = p})
  | inr ge ↦ ground (arith, ge, link_track_alias iot (base + size l + 1) r {p = p})
]

lookup-insert :
    (iot : IoTrack) (q : ℕ) (l : List IoTrack)
    → lookup iot.sector l ≡ none
    → lookup q (insert before iot l) ≡ (if iot.sector == q then some iot else lookup q l)
unfolding lookup insert
lookup-insert iot q [] h = refl
lookup-insert iot q (x ∷ l) h = ground (arith, lookup-insert iot q l)

Strict-insert :
    (iot : IoTrack) (l : List IoTrack)
    → lookup iot.sector l ≡ none
    → Strict l
    → Strict (insert before iot l)
unfolding lookup insert
Strict-insert iot [] h o = (tt, tt)
Strict-insert iot (x ∷ l) h o = elim (Bool-cases (before iot x)) [
  | inl lt ↦ rw lt ((ground arith, later l (ground arith) o.0), o)
  | inr ge ↦ rw ge (inside l (ground arith) o.0, Strict-insert iot l (ground arith) o.1)
]
  where
    later :
        (k : List IoTrack)
        → iot.sector < x.sector
        → All (λ y. x.sector < y.sector) k
        → All (λ y. iot.sector < y.sector) k
    later [] s a = tt
    later (y ∷ k) s a = (omega arith, later k s a.1)

    inside :
        (k : List IoTrack)
        → x.sector < iot.sector
        → All (λ y. x.sector < y.sector) k
        → All (λ y. x.sector < y.sector) (insert before iot k)
    inside [] s a = (s, tt)
    inside (y ∷ k) s a = elim (Bool-cases (before iot y)) [
      | inl lt ↦ rw lt (s, a)
      | inr ge ↦ rw ge (a.0, inside k s a.1)
    ]

find_none : (s : ℕ) (t : TrackTree) → tracked s t ≡ none → find_place s 0 t ≡ none
unfolding tracked __find_track
find_none s t h = elim (Option-cases (find_place s 0 t)) [
  | inl e ↦ e
  | inr (p, e) ↦ cc (sym h, ap entry e)
]

module _ (ops : RbOps) (hash : Hash) where
  -- A sector that is not in the tree is added, and no other is touched.
  pub tracked-track_rb_insert :
      (iot : IoTrack) (q : ℕ) (root : TrackTree)
      → Strict (to_list root)
      → tracked iot.sector root ≡ none
      → Strict (to_list (track_rb_insert ops hash iot root))
        × (tracked q (track_rb_insert ops hash iot root)
            ≡ (if iot.sector == q then some iot else tracked q root))
  unfolding track_rb_insert
  tracked-track_rb_insert iot q root o h =
      let linked = link_track-link iot 0 root (find_none iot.sector root h) in
      let gone = sym (tracked-lookup iot.sector root o) ∙ h in
      let same : to_list (track_rb_insert ops hash iot root) ≡ insert before iot (to_list root) =
        rw (linked, track_rb_insert)
          (ops.rb_insert_color_lem (link_place (before iot) root) (link (before iot) iot root)
            ∙ to_list-link before before_trans iot root (Strict-IsSorted (to_list root) o)) in
      let o' = subst Strict (sym same) (Strict-insert iot (to_list root) gone o) in
      (
        o',
        tracked-lookup q (track_rb_insert ops hash iot root) o'
            ∙ (ap (lookup q) same
                ∙ (lookup-insert iot q (to_list root) gone
                    ∙ ap (λ k. if iot.sector == q then some iot else k)
                        (sym (tracked-lookup q root o)))),
      )

  -- A sector that is in the tree is refused.
  pub track_rb_insert_alias :
      (iot x : IoTrack) (root : TrackTree)
      → tracked iot.sector root ≡ some x
      → track_rb_insert ops hash iot root ≡ root
  unfolding track_rb_insert tracked __find_track
  track_rb_insert_alias iot x root h = elim (Option-cases (find_place iot.sector 0 root)) [
    | inl e ↦ cc (sym h, ap entry e)
    | inr (p, e) ↦ rw (link_track_alias iot 0 root e, track_rb_insert)
  ]
