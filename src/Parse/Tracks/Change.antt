-- ===== src/Parse/Tracks/Change.antt =====
-- The changes to the tree rb_track: insertion, removal and assignment, as changes to the map from
-- sectors to requests.
use blktrace.Common.{
  ℕ, zero, suc, ◌+◌, ◌-◌, ◌<◌, ◌≤◌, ◌≡◌, refl, ap, sym, ◌∙◌, subst, Option, none, some, List, [],
  ◌∷◌, ◌++◌, if◌then◌else◌, ◌==◌, ltb, ltb→lt, get_elem?, length, length-append, All, arith,
  Bool-cases, inl, inr, get_elem?-append_left, get_elem?_lt, ap₂,
}
use blktrace.Parse.RbTree.{RbOps, null, node, to_list, size, erase_idx}
use blktrace.Parse.Tracks.{IoTrack, TrackTree, find_place, __find_track, update_track}
use blktrace.Parse.Tracks.Tree.{Strict, lookup, lookup_below, parts, tracked, tracked-lookup}

-- Removal at the place of an entry.
lookup-erase_idx :
    (l : List IoTrack) (k s : ℕ) {y : IoTrack}
    → Strict l
    → get_elem? l k ≡ some y
    → lookup s (erase_idx k l) ≡ (if y.sector == s then none else lookup s l)
unfolding lookup
lookup-erase_idx [] k s o g = cc
lookup-erase_idx (x ∷ l) zero s {y} o g = ground (arith, lookup_below x.sector l o.0)
lookup-erase_idx (x ∷ l) (suc k) s {y} o g =
    ground (arith, lookup-erase_idx l k s {y = y} o.1, later l k o.0 g)
  where
    later :
        (m : List IoTrack) (j : ℕ)
        → All (λ z. x.sector < z.sector) m
        → get_elem? m j ≡ some y
        → x.sector < y.sector
    later [] j a h = cc
    later (z ∷ m) zero a h = ground arith
    later (z ∷ m) (suc j) a h = later m j a.1 h

All-erase_idx :
    (a k : ℕ) (l : List IoTrack)
    → All (λ y. a < y.sector) l
    → All (λ y. a < y.sector) (erase_idx k l)
All-erase_idx a k [] h = tt
All-erase_idx a zero (x ∷ l) h = h.1
All-erase_idx a (suc k) (x ∷ l) h = (h.0, All-erase_idx a k l h.1)

pub Strict-erase_idx : (k : ℕ) (l : List IoTrack) → Strict l → Strict (erase_idx k l)
Strict-erase_idx k [] o = tt
Strict-erase_idx zero (x ∷ l) o = o.1
Strict-erase_idx (suc k) (x ∷ l) o = (All-erase_idx x.sector k l o.0, Strict-erase_idx k l o.1)

size-length : (t : TrackTree) → size t ≡ length (to_list t)
unfolding size to_list
size-length null = refl
size-length (node l x r) =
    omega (arith, size-length l, size-length r, length-append (to_list l) (x ∷ to_list r))

get_elem?-append_right :
    (xs ys : List IoTrack) (k : ℕ) → get_elem? (xs ++ ys) (length xs + k) ≡ get_elem? ys k
get_elem?-append_right [] ys k = ap (get_elem? ys) (omega arith)
get_elem?-append_right (x ∷ xs) ys k =
    let e : suc (length xs) + k ≡ suc (length xs + k) = omega arith in
    ap (get_elem? (x ∷ xs ++ ys)) e ∙ get_elem?-append_right xs ys k

-- The place that a search gives is that of the entry, and the entry has the sector.
record Placed (s base : ℕ) (t : TrackTree) (place : ℕ) (y : IoTrack) : Type 0 where
  above : base ≤ place
  at : get_elem? (to_list t) (place - base) ≡ some y
  sector : y.sector ≡ s

find_place-Placed :
    (s base : ℕ) (t : TrackTree) (place : ℕ) (y : IoTrack)
    → find_place s base t ≡ some (place, y)
    → Placed s base t place y
unfolding find_place to_list
find_place-Placed s base null place y e = cc
find_place-Placed s base (node l x r) place y e = elim (Bool-cases (ltb s x.sector)) [
  | inl lt ↦
      let p = find_place-Placed s base l place y (ground (arith, lt)) in
      record {
        above = p.above;
        at =
            get_elem?-append_left (to_list l) (x ∷ to_list r) (place - base)
              (get_elem?_lt (to_list l) (place - base) p.at)
            ∙ p.at;
        sector = p.sector;
      }
  | inr ge ↦ elim (Bool-cases (ltb x.sector s)) [
    | inl gt ↦
        let p = find_place-Placed s (base + size l + 1) r place y (ground (arith, ge, gt)) in
        let e' : place - base ≡ length (to_list l) + suc (place - (base + size l + 1)) =
          omega (arith, p.above, size-length l) in
        record {
          above = omega (arith, p.above);
          at =
              ap (get_elem? (to_list l ++ x ∷ to_list r)) e'
              ∙ (get_elem?-append_right (to_list l) (x ∷ to_list r)
                    (suc (place - (base + size l + 1)))
                  ∙ p.at);
          sector = p.sector;
        }
    | inr le ↦
        let here : (place ≡ base + size l) × (x ≡ y) = ground (arith, ge, le) in
        let e' : place - base ≡ length (to_list l) + 0 = omega (arith, here.0, size-length l) in
        record {
          above = omega (arith, here.0);
          at =
              ap (get_elem? (to_list l ++ x ∷ to_list r)) e'
              ∙ (get_elem?-append_right (to_list l) (x ∷ to_list r) 0 ∙ ap some here.1);
          sector = ap (λ (z : IoTrack). z.sector) (sym here.1) ∙ ground (arith, ge, le);
        }
  ]
]

pub __find_track-sector :
    (s place : ℕ) (root : TrackTree) {x : IoTrack}
    → __find_track s root ≡ some (place, x)
    → x.sector ≡ s
unfolding __find_track
__find_track-sector s place root {x} e = (find_place-Placed s 0 root place x e).sector

module _ (ops : RbOps) where
  -- rb_erase at the place that __find_track gives removes that sector and no other.
  pub tracked-rb_erase :
      (root : TrackTree) (s q place : ℕ) (y : IoTrack)
      → Strict (to_list root)
      → __find_track s root ≡ some (place, y)
      → Strict (to_list (ops.rb_erase place root))
        × (tracked q (ops.rb_erase place root) ≡ (if s == q then none else tracked q root))
  unfolding __find_track
  tracked-rb_erase root s q place y o e =
      let p = find_place-Placed s 0 root place y e in
      let zero_off : place ≡ place - 0 = omega arith in
      let at = ap (get_elem? (to_list root)) zero_off ∙ p.at in
      let same = ops.rb_erase_lem place root in
      let o' = subst Strict (sym same) (Strict-erase_idx place (to_list root) o) in
      (
        o',
        tracked-lookup q (ops.rb_erase place root) o'
            ∙ (ap (lookup q) same
                ∙ (lookup-erase_idx (to_list root) place q o at
                    ∙ ap₂ (λ a b. if a == q then none else b) p.sector
                        (sym (tracked-lookup q root o)))),
      )

-- An assignment to the entry of a sector, in the list of the entries.
at_sector : ℕ → (IoTrack → IoTrack) → List IoTrack → List IoTrack
at_sector s f [] = []
at_sector s f (x ∷ l) = if x.sector == s then f x ∷ l else x ∷ at_sector s f l

at_sector_below :
    (s : ℕ) (f : IoTrack → IoTrack) (l : List IoTrack)
    → All (λ y. s < y.sector) l
    → at_sector s f l ≡ l
unfolding at_sector
at_sector_below s f [] a = refl
at_sector_below s f (x ∷ l) a = ground (arith, at_sector_below s f l a.1)

at_sector-append_left :
    (s : ℕ) (f : IoTrack → IoTrack) (xs ys : List IoTrack)
    → at_sector s f ys ≡ ys
    → at_sector s f (xs ++ ys) ≡ at_sector s f xs ++ ys
unfolding at_sector
at_sector-append_left s f [] ys h = h
at_sector-append_left s f (x ∷ xs) ys h = ground (arith, at_sector-append_left s f xs ys h)

at_sector-append_right :
    (s : ℕ) (f : IoTrack → IoTrack) (xs ys : List IoTrack)
    → All (λ y. y.sector < s) xs
    → at_sector s f (xs ++ ys) ≡ xs ++ at_sector s f ys
unfolding at_sector
at_sector-append_right s f [] ys h = refl
at_sector-append_right s f (x ∷ xs) ys h = ground (arith, at_sector-append_right s f xs ys h.1)

All-below :
    (a b : ℕ) (l : List IoTrack) → a ≤ b → All (λ y. y.sector < a) l → All (λ y. y.sector < b) l
All-below a b [] h k = tt
All-below a b (x ∷ l) h k = (omega arith, All-below a b l h k.1)

All-above :
    (a b : ℕ) (l : List IoTrack) → a ≤ b → All (λ y. b < y.sector) l → All (λ y. a < y.sector) l
All-above a b [] h k = tt
All-above a b (x ∷ l) h k = (omega arith, All-above a b l h k.1)

to_list-update_track :
    (s : ℕ) (f : IoTrack → IoTrack) (t : TrackTree)
    → Strict (to_list t)
    → to_list (update_track s f t) ≡ at_sector s f (to_list t)
unfolding update_track to_list at_sector
to_list-update_track s f null o = refl
to_list-update_track s f (node l x r) o =
    let p = parts (to_list l) x (to_list r) o in
    elim (Bool-cases (ltb s x.sector)) [
      | inl lt ↦
          let h = ltb→lt s x.sector lt in
          rw lt (
            ap (λ k. k ++ x ∷ to_list r) (to_list-update_track s f l p.left)
            ∙ sym (
                at_sector-append_left s f (to_list l) (x ∷ to_list r) (
                  at_sector_below s f (x ∷ to_list r)
                    (h, All-above s x.sector (to_list r) (omega arith) p.after))))
      | inr ge ↦ elim (Bool-cases (ltb x.sector s)) [
        | inl gt ↦
            let h = ltb→lt x.sector s gt in
            rw (ge, gt)
              (ap (λ k. to_list l ++ x ∷ k) (to_list-update_track s f r p.right)
                ∙ sym (
                    at_sector-append_right s f (to_list l) (x ∷ to_list r)
                      (All-below x.sector s (to_list l) (omega arith) p.before)
                    ∙ ap (λ k. to_list l ++ k) (ground arith)))
        | inr le ↦
            let e : x.sector ≡ s = ground arith in
            rw (ge, le)
              (sym (
                at_sector-append_right s f (to_list l) (x ∷ to_list r)
                  (subst (λ k. All (λ y. y.sector < k) (to_list l)) e p.before)
                ∙ ap (λ k. to_list l ++ k) (ground arith)))
      ]
    ]

abbrev pub then_apply : (IoTrack → IoTrack) → Option IoTrack → Option IoTrack
then_apply f none = none
then_apply f (some x) = some (f x)

module _ (f : IoTrack → IoTrack) (keeps : (x : IoTrack) → (f x).sector ≡ x.sector) where
  lookup-at_sector :
      (s q : ℕ) (l : List IoTrack)
      → lookup q (at_sector s f l) ≡ (if s == q then then_apply f (lookup q l) else lookup q l)
  unfolding lookup at_sector
  lookup-at_sector s q [] = ground arith
  lookup-at_sector s q (x ∷ l) = ground (arith, lookup-at_sector s q l, keeps x)

  All-at_sector :
      (a s : ℕ) (l : List IoTrack)
      → All (λ y. a < y.sector) l
      → All (λ y. a < y.sector) (at_sector s f l)
  unfolding at_sector
  All-at_sector a s [] h = tt
  All-at_sector a s (x ∷ l) h = ground (arith, All-at_sector a s l h.1, keeps x)

  Strict-at_sector : (s : ℕ) (l : List IoTrack) → Strict l → Strict (at_sector s f l)
  unfolding at_sector
  Strict-at_sector s [] o = tt
  Strict-at_sector s (x ∷ l) o = elim (Bool-cases (x.sector == s)) [
    | inl e ↦ rw e (rw (keeps x) o.0, o.1)
    | inr e ↦ rw e (All-at_sector x.sector s l o.0, Strict-at_sector s l o.1)
  ]

  -- An assignment that leaves the sector alone changes the entry of its sector and no other.
  pub tracked-update_track :
      (s q : ℕ) (t : TrackTree)
      → Strict (to_list t)
      → Strict (to_list (update_track s f t))
        × (tracked q (update_track s f t)
            ≡ (if s == q then then_apply f (tracked q t) else tracked q t))
  tracked-update_track s q t o =
      let same = to_list-update_track s f t o in
      let o' = subst Strict (sym same) (Strict-at_sector s (to_list t) o) in
      (
        o',
        tracked-lookup q (update_track s f t) o'
            ∙ (ap (lookup q) same
                ∙ (lookup-at_sector s q (to_list t)
                    ∙ ap (λ k. if s == q then then_apply f k else k) (sym (tracked-lookup q t o)))),
      )
