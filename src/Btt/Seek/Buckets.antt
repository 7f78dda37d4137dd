-- ===== src/Btt/Seek/Buckets.antt =====
-- There is one bucket for each distance: the walk of __insert keeps the buckets in the strict order of
-- their sectors.
use blktrace.Common.{
  ℕ, ◌+◌, ◌<◌, ◌≡◌, subst, sym, Option, none, some, List, [], ◌∷◌, ◌++◌, ltb, Bool-cases,
  Option-cases, inl, inr, arith, All, All-left, All-right, All-both, All-weaken, Bool,
}
use blktrace.Parse.RbTree.{Tree, null, node, RbOps, link, link_place, to_list}
use blktrace.Btt.Seek.{SeekBkt, count_seek, __insert}

-- The buckets are in the strict order of their sectors.
abbrev pub Ascending : List SeekBkt → Type 0
Ascending [] = Unit {0}
Ascending (b ∷ bs) = All (λ c. b.sectors < c.sectors) bs × Ascending bs

abbrev Below : ℕ → SeekBkt → Type 0
Below s b = b.sectors < s

abbrev Above : ℕ → SeekBkt → Type 0
Above s b = s < b.sectors

-- What makes up the order of a node and its two sides
record Parts (l : List SeekBkt) (b : SeekBkt) (r : List SeekBkt) : Type 0 where
  left : Ascending l
  right : Ascending r
  below : All (Below b.sectors) l
  above : All (Above b.sectors) r

split : (l : List SeekBkt) (b : SeekBkt) (r : List SeekBkt) → Ascending (l ++ b ∷ r) → Parts l b r
split [] b r a = record { left = tt; right = a.1; below = tt; above = a.0 }
split (c ∷ l) b r a =
    let p = split l b r a.1 in
    record {
      left = (All-left (Above c.sectors) l (b ∷ r) a.0, p.left);
      right = p.right;
      below = ((All-right (Above c.sectors) l (b ∷ r) a.0).0, p.below);
      above = p.above;
    }

join : (l : List SeekBkt) (b : SeekBkt) (r : List SeekBkt) → Parts l b r → Ascending (l ++ b ∷ r)
join [] b r p = (p.above, p.right)
join (c ∷ l) b r p = (
  All-both (Above c.sectors) l (b ∷ r) p.left.0 (
    p.below.0,
    All-weaken (Above b.sectors) (Above c.sectors) r (λ x h. omega (arith, h, p.below.0)) p.above,
  ),
  join l b r (record { left = p.left.1; right = p.right; below = p.below.1; above = p.above }),
)

module _ (P : ℕ → Type 0) where
  abbrev Holds : SeekBkt → Type 0
  Holds b = P b.sectors

  -- Counting a seek leaves the sectors of the buckets as they are.
  abbrev AllSome : Option (Tree SeekBkt) → Type 0
  AllSome none = Unit {0}
  AllSome (some t) = All Holds (to_list t)

  count_seek-All : (s : ℕ) (t : Tree SeekBkt) → All Holds (to_list t) → AllSome (count_seek s t)
  unfolding count_seek to_list
  count_seek-All s null h = tt
  count_seek-All s (node l b r) h =
      let in_l = All-left Holds (to_list l) (b ∷ to_list r) h in
      let in_r = All-right Holds (to_list l) (b ∷ to_list r) h in
      elim (Bool-cases (ltb s b.sectors)) [
        | inl e ↦ elim (Option-cases (count_seek s l)) [
          | inl f ↦ rw (count_seek, e, f) tt
          | inr (l', f) ↦
              let rest = subst AllSome f (count_seek-All s l in_l) in
              rw (count_seek, e, f) (All-both Holds (to_list l') (b ∷ to_list r) rest in_r)
        ]
        | inr e ↦ elim (Bool-cases (ltb b.sectors s)) [
          | inl g ↦ elim (Option-cases (count_seek s r)) [
            | inl f ↦ rw (count_seek, e, g, f) tt
            | inr (r', f) ↦
                let rest = subst AllSome f (count_seek-All s r in_r.1) in
                rw (count_seek, e, g, f)
                  (All-both Holds (to_list l) (b ∷ to_list r') in_l (in_r.0, rest))
          ]
          | inr g ↦
              rw (count_seek, e, g)
                (All-both Holds (to_list l) (record b { nseeks = b.nseeks + 1 } ∷ to_list r) in_l
                  in_r)
        ]
      ]

  link-All :
      (left : SeekBkt → Bool) (x : SeekBkt) (t : Tree SeekBkt)
      → P x.sectors
      → All Holds (to_list t)
      → All Holds (to_list (link left x t))
  unfolding link to_list
  link-All left x null p h = (p, tt)
  link-All left x (node l b r) p h =
      let in_l = All-left Holds (to_list l) (b ∷ to_list r) h in
      let in_r = All-right Holds (to_list l) (b ∷ to_list r) h in
      elim (Bool-cases (left b)) [
        | inl e ↦
            rw (link, e)
              (All-both Holds (to_list (link left x l)) (b ∷ to_list r) (link-All left x l p in_l)
                in_r)
        | inr e ↦
            rw (link, e)
              (All-both Holds (to_list l) (b ∷ to_list (link left x r)) in_l
                (in_r.0, link-All left x r p in_r.1))
      ]

abbrev AscendingSome : Option (Tree SeekBkt) → Type 0
AscendingSome none = Unit {0}
AscendingSome (some t) = Ascending (to_list t)

count_seek-Ascending :
    (s : ℕ) (t : Tree SeekBkt) → Ascending (to_list t) → AscendingSome (count_seek s t)
unfolding count_seek to_list
count_seek-Ascending s null a = tt
count_seek-Ascending s (node l b r) a =
    let p = split (to_list l) b (to_list r) a in
    elim (Bool-cases (ltb s b.sectors)) [
      | inl e ↦ elim (Option-cases (count_seek s l)) [
        | inl f ↦ rw (count_seek, e, f) tt
        | inr (l', f) ↦
            let order = subst AscendingSome f (count_seek-Ascending s l p.left) in
            let below =
              subst (AllSome (λ x. x < b.sectors)) f
                (count_seek-All (λ x. x < b.sectors) s l p.below) in
            rw (count_seek, e, f)
              (join (to_list l') b (to_list r)
                (record { left = order; right = p.right; below = below; above = p.above }))
      ]
      | inr e ↦ elim (Bool-cases (ltb b.sectors s)) [
        | inl g ↦ elim (Option-cases (count_seek s r)) [
          | inl f ↦ rw (count_seek, e, g, f) tt
          | inr (r', f) ↦
              let order = subst AscendingSome f (count_seek-Ascending s r p.right) in
              let above =
                subst (AllSome (λ x. b.sectors < x)) f
                  (count_seek-All (λ x. b.sectors < x) s r p.above) in
              rw (count_seek, e, g, f)
                (join (to_list l) b (to_list r')
                  (record { left = p.left; right = order; below = p.below; above = above }))
        ]
        | inr g ↦
            rw (count_seek, e, g)
              (join (to_list l) (record b { nseeks = b.nseeks + 1 }) (to_list r)
                (record { left = p.left; right = p.right; below = p.below; above = p.above }))
      ]
    ]

link-Ascending :
    (s n : ℕ) (t : Tree SeekBkt)
    → count_seek s t ≡ none
    → Ascending (to_list t)
    → Ascending (to_list (link (λ b. ltb s b.sectors) (record { sectors = s; nseeks = n }) t))
unfolding count_seek link to_list
link-Ascending s n null h a = (tt, tt)
link-Ascending s n (node l b r) h a =
    let p = split (to_list l) b (to_list r) a in
    let x : SeekBkt = record { sectors = s; nseeks = n } in
    let left = λ (b : SeekBkt). ltb s b.sectors in
    elim (Bool-cases (ltb s b.sectors)) [
      | inl e ↦ elim (Option-cases (count_seek s l)) [
        | inl f ↦
            rw (link, e)
              (join (to_list (link left x l)) b (to_list r) (record {
                left = link-Ascending s n l f p.left;
                right = p.right;
                below = link-All (λ y. y < b.sectors) left x l (ground (arith, e)) p.below;
                above = p.above;
              }))
        | inr (l', f) ↦ absurd (ground (arith, h, e, f))
      ]
      | inr e ↦ elim (Bool-cases (ltb b.sectors s)) [
        | inl g ↦ elim (Option-cases (count_seek s r)) [
          | inl f ↦
              rw (link, e)
                (join (to_list l) b (to_list (link left x r)) (record {
                  left = p.left;
                  right = link-Ascending s n r f p.right;
                  below = p.below;
                  above = link-All (λ y. b.sectors < y) left x r (ground (arith, g)) p.above;
                }))
          | inr (r', f) ↦ absurd (ground (arith, h, e, g, f))
        ]
        | inr g ↦ absurd (ground (arith, h, e, g))
      ]
    ]

module _ (ops : RbOps) where
  open ops use {rb_insert_color_lem}

  pub __insert-Ascending :
      (s : ℕ) (t : Tree SeekBkt) → Ascending (to_list t) → Ascending (to_list (__insert ops t s))
  unfolding __insert
  __insert-Ascending s t a = elim (Option-cases (count_seek s t)) [
    | inr (t', e) ↦ rw (e, __insert) (subst AscendingSome e (count_seek-Ascending s t a))
    | inl e ↦
        let left = λ (b : SeekBkt). ltb s b.sectors in
        rw (e, __insert)
          (subst Ascending
            (sym (
              rb_insert_color_lem (link_place left t)
                (link left (record { sectors = s; nseeks = 1 }) t)))
            (link-Ascending s 1 t e a))
  ]
