-- ===== src/Btt/PLive/Cover.antt =====
-- Lists of separate intervals, and the time that they cover.
use blktrace.Common.{
  ℕ, zero, suc, ◌<◌, ◌≤◌, ◌≡◌, refl, ap, subst, min, max, Bool, true, false, ◌&&◌, ◌||◌, some, leb,
  List, [], ◌∷◌, ◌++◌, length, get_elem?, All, All-left, All-right, All-both, arith,
}
use blktrace.Parse.RbTree.{erase_idx}
use blktrace.Btt.PLive.{PLive, inside}

-- Each interval is one, and ends before the next ones start.
abbrev pub Apart : List PLive → Type 0
Apart [] = Unit {0}
Apart (x ∷ l) = (x.dt ≤ x.ct) × All (λ y. x.ct < y.dt) l × Apart l

unfoldable pub within : ℕ → ℕ → ℕ → Bool
within t dt ct = leb dt t && leb t ct

-- Is the time in one of the intervals?
unfoldable pub covered : ℕ → List PLive → Bool
unfolding within
covered t [] = false
covered t (x ∷ l) = within t x.dt x.ct || covered t l

pub Apart-left : (l r : List PLive) → Apart (l ++ r) → Apart l
Apart-left [] r h = tt
Apart-left (x ∷ l) r h = (h.0, All-left (λ y. x.ct < y.dt) l r h.1, Apart-left l r h.2)

pub Apart-right : (l r : List PLive) → Apart (l ++ r) → Apart r
Apart-right [] r h = h
Apart-right (x ∷ l) r h = Apart-right l r h.2

All-erase : {A : Type 0} (P : A → Type 0) (i : ℕ) (l : List A) → All P l → All P (erase_idx i l)
All-erase P i [] h = tt
All-erase P zero (x ∷ l) h = h.1
All-erase P (suc i) (x ∷ l) h = (h.0, All-erase P i l h.1)

pub Apart-erase : (i : ℕ) (l : List PLive) → Apart l → Apart (erase_idx i l)
Apart-erase i [] h = tt
Apart-erase zero (x ∷ l) h = h.2
Apart-erase (suc i) (x ∷ l) h = (h.0, All-erase (λ y. x.ct < y.dt) i l h.1, Apart-erase i l h.2)

-- What is covered without an entry, and by it
pub covered-erase :
    (t i : ℕ) (l : List PLive) (u : PLive)
    → get_elem? l i ≡ some u
    → covered t l ≡ (covered t (erase_idx i l) || within t u.dt u.ct)
unfolding covered
covered-erase t i [] u e = cc
covered-erase t zero (x ∷ l) u e =
    let same : x ≡ u = cc in
    subst (λ k. (within t x.dt x.ct || covered t l) ≡ (covered t l || within t k.dt k.ct)) same
      (or_swap (within t x.dt x.ct) (covered t l))
  where
    or_swap : (a b : Bool) → (a || b) ≡ (b || a)
    or_swap a b = ground arith
covered-erase t (suc i) (x ∷ l) u e =
    let h = covered-erase t i l u e in
    or_move (within t x.dt x.ct) (covered t l) (covered t (erase_idx i l)) (within t u.dt u.ct) h
  where
    or_move : (a b c d : Bool) → b ≡ (c || d) → (a || b) ≡ ((a || c) || d)
    or_move a b c d h = ground (arith, h)

pub length-erase :
    (i : ℕ) (l : List PLive) (u : PLive)
    → get_elem? l i ≡ some u
    → suc (length (erase_idx i l)) ≡ length l
length-erase i [] u e = cc
length-erase zero (x ∷ l) u e = refl
length-erase (suc i) (x ∷ l) u e = ap suc (length-erase i l u e)

pub get_elem?-Apart :
    (i : ℕ) (l : List PLive) (u : PLive) → get_elem? l i ≡ some u → Apart l → u.dt ≤ u.ct
get_elem?-Apart i [] u e h = cc
get_elem?-Apart zero (x ∷ l) u e h = let same : x ≡ u = cc in subst (λ k. k.dt ≤ k.ct) same h.0
get_elem?-Apart (suc i) (x ∷ l) u e h = get_elem?-Apart i l u e h.2

-- Two intervals that meet cover what the one from the lower to the upper end covers.
pub within-hull :
    (t dt ct : ℕ) (u : PLive)
    → dt ≤ ct
    → u.dt ≤ u.ct
    → inside u dt ct ≡ true
    → within t (min u.dt dt) (max u.ct ct) ≡ (within t u.dt u.ct || within t dt ct)
unfolding within inside
within-hull t dt ct u h k e = ground (arith, e)

-- A new interval between those that end before it and those that start after it
pub Apart-between :
    (dt ct : ℕ) (l r : List PLive)
    → dt ≤ ct
    → Apart (l ++ r)
    → All (λ y. y.ct < dt) l
    → All (λ y. ct < y.dt) r
    → Apart (l ++ record { dt = dt; ct = ct } ∷ r)
Apart-between dt ct [] r h a hl hr = (h, hr, a)
Apart-between dt ct (x ∷ l) r h a hl hr = (
  a.0,
  All-both (λ y. x.ct < y.dt) l (record { dt = dt; ct = ct } ∷ r)
      (All-left (λ y. x.ct < y.dt) l r a.1) (hl.0, All-right (λ y. x.ct < y.dt) l r a.1),
  Apart-between dt ct l r h a.2 hl.1 hr,
)

pub covered-between :
    (t dt ct : ℕ) (l r : List PLive)
    → covered t (l ++ record { dt = dt; ct = ct } ∷ r) ≡ (covered t (l ++ r) || within t dt ct)
unfolding covered
covered-between t dt ct [] r = ground arith
covered-between t dt ct (x ∷ l) r =
    let h = covered-between t dt ct l r in
    or_assoc (within t x.dt x.ct) (covered t (l ++ r)) (within t dt ct) h
  where
    or_assoc : {d : Bool} (a b c : Bool) → d ≡ (b || c) → (a || d) ≡ ((a || b) || c)
    or_assoc a b c h = ground (arith, h)
