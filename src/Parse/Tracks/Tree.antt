-- ===== src/Parse/Tracks/Tree.antt =====
-- The tree rb_track is a map from sectors to requests: a sorted list without repetition.

use blktrace.Common.{
  ℕ, ◌+◌, ◌<◌, ◌≡◌, refl, ◌∙◌, subst, Option, none, some, List, [], ◌∷◌, ◌++◌, if◌then◌else◌, ◌==◌,
  ltb, ltb→lt, All, arith, Bool-cases, inl, inr,
}
use blktrace.Parse.RbTree.{null, node, to_list, size}
use blktrace.Parse.Tracks.{IoTrack, TrackTree, find_place, __find_track}

-- The entries are in the order of their sectors, no two alike.
abbrev pub Strict : List IoTrack → Type 0
Strict [] = Unit {0}
Strict (x ∷ xs) = All (λ y. x.sector < y.sector) xs × Strict xs

unfoldable pub lookup : ℕ → List IoTrack → Option IoTrack
lookup s [] = none
lookup s (x ∷ xs) = if x.sector == s then some x else lookup s xs

pub lookup_below : (s : ℕ) (l : List IoTrack) → All (λ y. s < y.sector) l → lookup s l ≡ none
unfolding lookup
lookup_below s [] a = refl
lookup_below s (x ∷ l) a = ground (arith, lookup_below s l a.1)

pub lookup_above : (s : ℕ) (l : List IoTrack) → All (λ y. y.sector < s) l → lookup s l ≡ none
unfolding lookup
lookup_above s [] a = refl
lookup_above s (x ∷ l) a = ground (arith, lookup_above s l a.1)

lookup-append_right :
    (s : ℕ) (xs ys : List IoTrack) → lookup s xs ≡ none → lookup s (xs ++ ys) ≡ lookup s ys
unfolding lookup
lookup-append_right s [] ys h = refl
lookup-append_right s (x ∷ xs) ys h = ground (arith, lookup-append_right s xs ys)

lookup-append_left :
    (s : ℕ) (xs ys : List IoTrack) → lookup s ys ≡ none → lookup s (xs ++ ys) ≡ lookup s xs
unfolding lookup
lookup-append_left s [] ys h = h
lookup-append_left s (x ∷ xs) ys h = ground (arith, lookup-append_left s xs ys h)

-- A strict list about one of its entries.
pub record Parts (ls : List IoTrack) (x : IoTrack) (rs : List IoTrack) : Type 0 where
  pub before : All (λ y. y.sector < x.sector) ls
  pub after : All (λ y. x.sector < y.sector) rs
  pub left : Strict ls
  pub right : Strict rs

All-trans :
    (a b : ℕ) (l : List IoTrack) → a < b → All (λ y. b < y.sector) l → All (λ y. a < y.sector) l
All-trans a b [] h k = tt
All-trans a b (x ∷ l) h k = (omega arith, All-trans a b l h k.1)

All-below :
    (a b : ℕ) (l : List IoTrack) → a < b → All (λ y. y.sector < a) l → All (λ y. y.sector < b) l
All-below a b [] h k = tt
All-below a b (x ∷ l) h k = (omega arith, All-below a b l h k.1)

all_left :
    (a : ℕ) (xs ys : List IoTrack) → All (λ y. a < y.sector) (xs ++ ys) → All (λ y. a < y.sector) xs
all_left a [] ys h = tt
all_left a (x ∷ xs) ys h = (h.0, all_left a xs ys h.1)

all_at :
    (a : ℕ) (xs : List IoTrack) (y : IoTrack) (ys : List IoTrack)
    → All (λ z. a < z.sector) (xs ++ y ∷ ys)
    → a < y.sector
all_at a [] y ys h = h.0
all_at a (x ∷ xs) y ys h = all_at a xs y ys h.1

pub parts :
    (ls : List IoTrack) (x : IoTrack) (rs : List IoTrack) → Strict (ls ++ x ∷ rs) → Parts ls x rs
parts [] x rs s = record { before = tt; after = s.0; left = tt; right = s.1 }
parts (l ∷ ls) x rs s =
    let p = parts ls x rs s.1 in
    record {
      before = (all_at l.sector ls x rs s.0, p.before);
      after = p.after;
      left = (all_left l.sector ls (x ∷ rs) s.0, p.left);
      right = p.right;
    }

-- A search by sector in the list, seen from an entry.
module _ (s : ℕ) (ls : List IoTrack) (x : IoTrack) (rs : List IoTrack) (p : Parts ls x rs) where
  pub lookup_left : s < x.sector → lookup s (ls ++ x ∷ rs) ≡ lookup s ls
  lookup_left h =
      lookup-append_left s ls (x ∷ rs)
        (lookup_below s (x ∷ rs) (h, All-trans s x.sector rs h p.after))

  pub lookup_right : x.sector < s → lookup s (ls ++ x ∷ rs) ≡ lookup s rs
  unfolding lookup
  lookup_right h =
      lookup-append_right s ls (x ∷ rs) (lookup_above s ls (All-below x.sector s ls h p.before))
      ∙ ground arith

  pub lookup_here : x.sector ≡ s → lookup s (ls ++ x ∷ rs) ≡ some x
  unfolding lookup
  lookup_here h =
      lookup-append_right s ls (x ∷ rs)
        (lookup_above s ls (subst (λ k. All (λ y. y.sector < k) ls) h p.before))
      ∙ ground arith

-- What a search finds, without the place.
abbrev pub entry : Option (ℕ × IoTrack) → Option IoTrack
entry none = none
entry (some (place, x)) = some x

unfoldable pub tracked : ℕ → TrackTree → Option IoTrack
tracked s t = entry (__find_track s t)

pub find_place-lookup :
    (s base : ℕ) (t : TrackTree)
    → Strict (to_list t)
    → entry (find_place s base t) ≡ lookup s (to_list t)
unfolding find_place to_list lookup
find_place-lookup s base null o = refl
find_place-lookup s base (node l x r) o =
    let p = parts (to_list l) x (to_list r) o in
    elim (Bool-cases (ltb s x.sector)) [
      | inl lt ↦
          rw (lt, lookup_left s (to_list l) x (to_list r) p (ltb→lt s x.sector lt))
            (find_place-lookup s base l p.left)
      | inr ge ↦ elim (Bool-cases (ltb x.sector s)) [
        | inl gt ↦
            rw (ge, gt, lookup_right s (to_list l) x (to_list r) p (ltb→lt x.sector s gt))
              (find_place-lookup s (base + size l + 1) r p.right)
        | inr le ↦ rw (ge, le, lookup_here s (to_list l) x (to_list r) p (ground arith))
      ]
    ]

-- __find_track finds what the list of the entries holds.
pub tracked-lookup :
    (s : ℕ) (t : TrackTree) → Strict (to_list t) → tracked s t ≡ lookup s (to_list t)
unfolding tracked __find_track
tracked-lookup s t o = find_place-lookup s 0 t o
