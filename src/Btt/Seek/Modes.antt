-- ===== src/Btt/Seek/Modes.antt =====
-- What seeki_mode and seeki_median find.
use blktrace.Common.{
  ℕ, ◌+◌, ◌/◌, ◌≤◌, ◌<◌, ◌≡◌, refl, ap, ap₂, append-nil, ◌∙◌, sym, max, true, false, Option, none,
  some, List, [], ◌∷◌, ◌++◌, append_assoc, if◌then◌else◌, ◌==◌, leb, ltb, Bool-cases, inl, inr,
  arith,
}
use blktrace.Parse.RbTree.{Tree, null, node}
use blktrace.Btt.Seek.{SeekBkt, Seeks, __median, seeki_median, mode_here, __mode, seeki_mode}

-- The buckets of a tree, those above before and after those below
unfoldable pub downward : Tree SeekBkt → List SeekBkt
downward null = []
downward (node l b r) = b ∷ (downward l ++ downward r)

unfoldable pub upward : Tree SeekBkt → List SeekBkt
upward null = []
upward (node l b r) = upward l ++ (upward r ++ b ∷ [])

-- The first bucket with a count of at least `n`
unfoldable pub first_of : ℕ → List SeekBkt → Option ℕ
first_of n [] = none
first_of n (b ∷ bs) = if leb n b.nseeks then some b.sectors else first_of n bs

unfoldable pub most : List SeekBkt → ℕ
most [] = 0
most (b ∷ bs) = max b.nseeks (most bs)

-- The distances that occur `n` times
unfoldable pub that_often : ℕ → List SeekBkt → List ℕ
that_often n [] = []
that_often n (b ∷ bs) = if b.nseeks == n then b.sectors ∷ that_often n bs else that_often n bs

unfoldable pub modes_of : List SeekBkt → Option (ℕ × List ℕ)
unfolding most that_often
modes_of [] = none
modes_of (b ∷ bs) = some (most (b ∷ bs), that_often (most (b ∷ bs)) (b ∷ bs))

first_of-append :
    (n : ℕ) (l r : List SeekBkt)
    → first_of n (l ++ r) ≡ elim (first_of n l) [ some v ↦ some v | none ↦ first_of n r ]
unfolding first_of
first_of-append n [] r = refl
first_of-append n (b ∷ l) r = elim (Bool-cases (leb n b.nseeks)) [
  | inl h ↦ rw (h, first_of) refl
  | inr h ↦ rw (h, first_of) (first_of-append n l r)
]

__median-first_of :
    (t : Tree SeekBkt) (target : ℕ) → __median t 0 target ≡ first_of target (downward t)
unfolding __median downward first_of
__median-first_of null target = refl
__median-first_of (node l b r) target = elim (Bool-cases (leb target b.nseeks)) [
  | inl h ↦ let h' : leb target (0 + b.nseeks) ≡ true = ground (arith, h) in rw (h, h') refl
  | inr h ↦
      let h' : leb target (0 + b.nseeks) ≡ false = ground (arith, h) in
      rw (h, h')
        (ap₂ (λ x y. elim x [ some v ↦ some v | none ↦ y ]) (__median-first_of l target)
            (__median-first_of r target)
          ∙ sym (first_of-append target (downward l) (downward r)))
]

-- A list with one more bucket behind it
that_often-append :
    (n : ℕ) (l : List SeekBkt) (b : SeekBkt)
    → that_often n (l ++ b ∷ []) ≡ that_often n l ++ (if b.nseeks == n then b.sectors ∷ [] else [])
unfolding that_often
that_often-append n [] b = refl
that_often-append n (x ∷ l) b = elim (Bool-cases (x.nseeks == n)) [
  | inl h ↦ rw (h, that_often) (ap (λ k. x.sectors ∷ k) (that_often-append n l b))
  | inr h ↦ rw (h, that_often) (that_often-append n l b)
]

most-append : (l : List SeekBkt) (b : SeekBkt) → most (l ++ b ∷ []) ≡ max (most l) b.nseeks
unfolding most
most-append [] b = omega arith
most-append (x ∷ l) b = omega (arith, most-append l b)

none_more : (n : ℕ) (l : List SeekBkt) → most l < n → that_often n l ≡ []
unfolding most that_often
none_more n [] h = refl
none_more n (x ∷ l) h =
    let other : x.nseeks == n ≡ false = ground (arith, h) in
    rw (other, that_often) (none_more n l (omega (arith, h)))

pair_of : List SeekBkt → Option (ℕ × List ℕ)
pair_of l = some (most l, that_often (most l) l)

is_pair :
    (l : List SeekBkt) (m : ℕ) (k : List ℕ)
    → m ≡ most l
    → k ≡ that_often m l
    → some (m, k) ≡ pair_of l
unfolding pair_of
is_pair l m k e h = ap₂ (λ a c. some (a, c)) e (h ∙ ap (λ z. that_often z l) e)

-- One bucket more
step : (l : List SeekBkt) (b : SeekBkt) → mode_here b (pair_of l) ≡ pair_of (l ++ b ∷ [])
unfolding mode_here pair_of
step l b = elim (Bool-cases (ltb (most l) b.nseeks)) [
  | inl h ↦
      rw (h, mode_here)
        (is_pair (l ++ b ∷ []) b.nseeks (b.sectors ∷ []) (omega (arith, lt h, most-append l b))
          (sym (that_often-append b.nseeks l b ∙ (rw (none_more b.nseeks l (lt h), own) refl))))
  | inr h ↦ elim (Bool-cases (b.nseeks == most l)) [
    | inl k ↦
        rw (h, k, mode_here)
          (is_pair (l ++ b ∷ []) b.nseeks (that_often (most l) l ++ b.sectors ∷ [])
            (omega (arith, same k, most-append l b))
            (sym (
              that_often-append b.nseeks l b
              ∙ (rw (own) (ap (λ z. that_often z l ++ b.sectors ∷ []) (same k))))))
    | inr k ↦
        rw (h, k, mode_here)
          (is_pair (l ++ b ∷ []) (most l) (that_often (most l) l)
            (omega (arith, ge h, most-append l b))
            (sym (that_often-append (most l) l b ∙ (rw (k) (append-nil (that_often (most l) l))))))
  ]
]
  where
    lt : ltb (most l) b.nseeks ≡ true → most l < b.nseeks
    lt h = ground (arith, h)

    ge : ltb (most l) b.nseeks ≡ false → b.nseeks ≤ most l
    ge h = ground (arith, h)

    same : b.nseeks == most l ≡ true → b.nseeks ≡ most l
    same k = ground (arith, k)

    own : b.nseeks == b.nseeks ≡ true
    own = ground arith

modes_from : Option (ℕ × List ℕ) → List SeekBkt → Option (ℕ × List ℕ)
modes_from mp [] = mp
modes_from mp (b ∷ bs) = modes_from (mode_here b mp) bs

modes_from-append :
    (mp : Option (ℕ × List ℕ)) (l r : List SeekBkt)
    → modes_from mp (l ++ r) ≡ modes_from (modes_from mp l) r
unfolding modes_from
modes_from-append mp [] r = refl
modes_from-append mp (b ∷ l) r = modes_from-append (mode_here b mp) l r

__mode-modes_from :
    (t : Tree SeekBkt) (mp : Option (ℕ × List ℕ)) → __mode t mp ≡ modes_from mp (upward t)
unfolding __mode modes_from upward
__mode-modes_from null mp = refl
__mode-modes_from (node l b r) mp =
    ap (mode_here b) (
      __mode-modes_from r (__mode l mp)
      ∙ ap (λ k. modes_from k (upward r)) (__mode-modes_from l mp))
    ∙ sym (
        modes_from-append mp (upward l) (upward r ++ b ∷ [])
        ∙ modes_from-append (modes_from mp (upward l)) (upward r) (b ∷ []))

modes_from-pair_of : (p l : List SeekBkt) → modes_from (pair_of p) l ≡ pair_of (p ++ l)
unfolding modes_from
modes_from-pair_of p [] = ap pair_of (sym (append-nil p))
modes_from-pair_of p (b ∷ l) =
    ap (λ k. modes_from k l) (step p b)
    ∙ (modes_from-pair_of (p ++ b ∷ []) l ∙ ap pair_of (append_assoc p (b ∷ []) l))

modes_from-modes_of : (l : List SeekBkt) → modes_from none l ≡ modes_of l
unfolding modes_from modes_of mode_here pair_of
modes_from-modes_of [] = refl
modes_from-modes_of (b ∷ l) =
    ap (λ k. modes_from k l) (is_pair (b ∷ []) b.nseeks (b.sectors ∷ []) (alone b) (only b))
    ∙ modes_from-pair_of (b ∷ []) l
  where
    alone : (x : SeekBkt) → x.nseeks ≡ most (x ∷ [])
    alone x = omega arith

    only : (x : SeekBkt) → x.sectors ∷ [] ≡ that_often x.nseeks (x ∷ [])
    only x = ground arith

-- seeki_mode finds the largest count of a bucket and all distances that occur that often, those below in
-- the tree first, or nothing with no bucket; but seeki_median gives the first bucket, from the root
-- down, that alone counts half of all seeks, or else 0.
pub seeki_mode-seeki_median :
    (sip : Seeks)
    → (seeki_mode sip ≡ modes_of (upward sip.root))
      × (seeki_median sip
          ≡ elim (first_of (sip.tot_seeks / 2) (downward sip.root)) [ some v ↦ v | none ↦ 0 ])
unfolding seeki_mode seeki_median
seeki_mode-seeki_median sip = (
  __mode-modes_from sip.root none ∙ modes_from-modes_of (upward sip.root),
  ap (λ x. elim x [ some v ↦ v | none ↦ 0 ]) (__median-first_of sip.root (sip.tot_seeks / 2)),
)
