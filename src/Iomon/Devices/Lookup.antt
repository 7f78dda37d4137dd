-- ===== src/Iomon/Devices/Lookup.antt =====
-- The statistics that the trees of blkiomon.c hold for a device.
use blktrace.Common.{
  ℕ, ◌<◌, ◌≡◌, refl, ap, sym, ◌∙◌, Bool, true, false, none, some, List, [], ◌∷◌, ◌++◌,
  if◌then◌else◌, ◌==◌, ltb, All, All-left, All-right, All-both, Bool-cases, subst, inl, inr, find,
  find-none, find-left, find-nothing, All-weaken, arith,
}
use blktrace.Parse.RbTree.{Tree, null, node, to_list, link}
use blktrace.Iomon.{BlkiomonStat}
use blktrace.Iomon.Devices.{find_dstat, goes_before, put_dstat}

-- From the larger device to the smaller
abbrev pub Descending : List BlkiomonStat → Type 0
Descending [] = Unit {0}
Descending (x ∷ l) = All (λ y. y.device < x.device) l × Descending l

unfoldable pub is_of : ℕ → BlkiomonStat → Bool
is_of device s = s.device == device

Descending-left : (l r : List BlkiomonStat) → Descending (l ++ r) → Descending l
Descending-left [] r h = tt
Descending-left (x ∷ l) r h = (All-left (λ y. y.device < x.device) l r h.0, Descending-left l r h.1)

Descending-right : (l r : List BlkiomonStat) → Descending (l ++ r) → Descending r
Descending-right [] r h = h
Descending-right (x ∷ l) r h = Descending-right l r h.1

Descending-before :
    (l r : List BlkiomonStat) (x : BlkiomonStat)
    → Descending (l ++ x ∷ r)
    → All (λ y. x.device < y.device) l
Descending-before [] r x h = tt
Descending-before (y ∷ l) r x h =
    ((All-right (λ z. z.device < y.device) l (x ∷ r) h.0).0, Descending-before l r x h.1)

find_dstat-find :
    (t : Tree BlkiomonStat) (device : ℕ)
    → Descending (to_list t)
    → find_dstat device t ≡ find (is_of device) (to_list t)
unfolding find_dstat to_list is_of
find_dstat-find null device d = refl
find_dstat-find (node l x r) device d =
    let here = Descending-right (to_list l) (x ∷ to_list r) d in
    let early = Descending-before (to_list l) (to_list r) x d in
    let left = find_dstat-find l device (Descending-left (to_list l) (x ∷ to_list r) d) in
    let right = find_dstat-find r device here.1 in
    let none_before : ltb x.device device ≡ false
        → find (is_of device) (to_list l ++ x ∷ to_list r) ≡ find (is_of device) (x ∷ to_list r) =
      λ h. find-none (is_of device) (to_list l) (x ∷ to_list r) (
        All-weaken (λ y. x.device < y.device) (λ y. is_of device y ≡ false) (to_list l)
          (λ y p. ground (arith, p, h)) early) in
    elim (Bool-cases (ltb x.device device)) [
      | inl h ↦
          let none_here : is_of device x ≡ false = ground (arith, h) in
          let none_after = find-nothing (is_of device) (to_list r) (
            All-weaken (λ y. y.device < x.device) (λ y. is_of device y ≡ false) (to_list r)
              (λ y p. ground (arith, p, h)) here.0) in
          let none_later : find (is_of device) (x ∷ to_list r) ≡ none = rw none_here none_after in
          rw h (left ∙ sym (find-left (is_of device) (to_list l) (x ∷ to_list r) none_later))
      | inr h ↦ elim (Bool-cases (ltb device x.device)) [
        | inl k ↦
            let none_here : is_of device x ≡ false = ground (arith, k) in
            let later : find (is_of device) (x ∷ to_list r) ≡ find (is_of device) (to_list r) =
              rw none_here refl in
            rw (h, k) (right ∙ sym (none_before h ∙ later))
        | inr k ↦
            let is_here : is_of device x ≡ true = ground (arith, h, k) in
            let found : find (is_of device) (x ∷ to_list r) ≡ some x = rw is_here refl in
            rw (h, k) (sym (none_before h ∙ found))
      ]
    ]

-- A search in a tree sorted by the devices goes by the order alone.
pub find_dstat-order :
    (s t : Tree BlkiomonStat) (device : ℕ)
    → to_list s ≡ to_list t
    → Descending (to_list t)
    → find_dstat device s ≡ find_dstat device t
find_dstat-order s t device e d =
    find_dstat-find s device (subst Descending (sym e) d)
    ∙ ap (find (is_of device)) e
    ∙ sym (find_dstat-find t device d)

-- A write through the pointer to a statistic changes the entry of its device alone.
pub find_dstat-put_dstat :
    (p : BlkiomonStat) (t : Tree BlkiomonStat) (device : ℕ) (q : BlkiomonStat)
    → find_dstat p.device t ≡ some q
    → find_dstat device (put_dstat p t)
      ≡ (if device == p.device then some p else find_dstat device t)
unfolding find_dstat put_dstat
find_dstat-put_dstat p null device q e = cc
find_dstat-put_dstat p (node l x r) device q e = elim (Bool-cases (ltb x.device p.device)) [
  | inl h ↦ rw h (ground (arith, h, find_dstat-put_dstat p l device q (ground (arith, h, e))))
  | inr h ↦ elim (Bool-cases (ltb p.device x.device)) [
    | inl k ↦
        rw (h, k)
          (ground (arith, h, k, find_dstat-put_dstat p r device q (ground (arith, h, k, e))))
    | inr k ↦ rw (h, k) (ground (arith, h, k))
  ]
]

-- A new statistic is found, and the others are.
pub find_dstat-link :
    (x : BlkiomonStat) (t : Tree BlkiomonStat) (device : ℕ)
    → find_dstat x.device t ≡ none
    → find_dstat device (link (goes_before x) x t)
      ≡ (if device == x.device then some x else find_dstat device t)
unfolding find_dstat link goes_before
find_dstat-link x null device e = ground arith
find_dstat-link x (node l y r) device e =
    ground (arith, find_dstat-link x l device, find_dstat-link x r device)

link-All :
    (P : BlkiomonStat → Type 0) (left : BlkiomonStat → Bool) (x : BlkiomonStat)
    (t : Tree BlkiomonStat)
    → P x
    → All P (to_list t)
    → All P (to_list (link left x t))
unfolding link to_list
link-All P left x null p a = (p, tt)
link-All P left x (node l y r) p a =
    let here = All-right P (to_list l) (y ∷ to_list r) a in
    let early = All-left P (to_list l) (y ∷ to_list r) a in
    elim (Bool-cases (left y)) [
      | inl h ↦ rw h (All-both P _ (y ∷ to_list r) (link-All P left x l p early) here)
      | inr h ↦ rw h (All-both P (to_list l) _ early (here.0, link-All P left x r p here.1))
    ]

Descending-join :
    (l r : List BlkiomonStat) (x : BlkiomonStat)
    → Descending l
    → Descending r
    → All (λ y. x.device < y.device) l
    → All (λ y. y.device < x.device) r
    → Descending (l ++ x ∷ r)
Descending-join [] r x dl dr al ar = (ar, dr)
Descending-join (y ∷ l) r x dl dr al ar = (
  All-both (λ z. z.device < y.device) l (x ∷ r) dl.0
      (
        al.0,
        All-weaken (λ z. z.device < x.device) (λ z. z.device < y.device) r
            (λ z p. omega (arith, p, al.0)) ar,
      ),
  Descending-join l r x dl.1 dr al.1 ar,
)

pub link-Descending :
    (x : BlkiomonStat) (t : Tree BlkiomonStat)
    → find_dstat x.device t ≡ none
    → Descending (to_list t)
    → Descending (to_list (link (goes_before x) x t))
unfolding link to_list goes_before find_dstat
link-Descending x null e d = (tt, tt)
link-Descending x (node l y r) e d =
    let here = Descending-right (to_list l) (y ∷ to_list r) d in
    let early = Descending-before (to_list l) (to_list r) y d in
    let dl = Descending-left (to_list l) (y ∷ to_list r) d in
    elim (Bool-cases (ltb y.device x.device)) [
      | inl h ↦ rw h (
          Descending-join _ (to_list r) y (link-Descending x l (rw h at e) dl) here.1
            (link-All (λ z. y.device < z.device) (goes_before x) x l (ground (arith, h)) early)
            here.0)
      | inr h ↦
          let past : (ltb x.device y.device ≡ true) × (find_dstat x.device r ≡ none) =
            ground (arith, h, e) in
          rw h (
            Descending-join (to_list l) _ y dl (link-Descending x r past.1 here.1) early (
              link-All (λ z. z.device < y.device) (goes_before x) x r (ground (arith, past))
                here.0))
    ]

put_dstat-All :
    (P : ℕ → Type 0) (p : BlkiomonStat) (t : Tree BlkiomonStat)
    → All (λ y. P y.device) (to_list t)
    → All (λ y. P y.device) (to_list (put_dstat p t))
unfolding put_dstat to_list
put_dstat-All P p null a = a
put_dstat-All P p (node l x r) a =
    let here = All-right (λ y. P y.device) (to_list l) (x ∷ to_list r) a in
    let early = All-left (λ y. P y.device) (to_list l) (x ∷ to_list r) a in
    elim (Bool-cases (ltb x.device p.device)) [
      | inl h ↦ rw h (All-both (λ y. P y.device) _ (x ∷ to_list r) (put_dstat-All P p l early) here)
      | inr h ↦ elim (Bool-cases (ltb p.device x.device)) [
        | inl k ↦
            rw (h, k)
              (All-both (λ y. P y.device) (to_list l) _ early (here.0, put_dstat-All P p r here.1))
        | inr k ↦
            rw (h, k)
              (All-both (λ y. P y.device) (to_list l) _ early
                (subst P (ground (arith, h, k)) here.0, here.1))
      ]
    ]

pub put_dstat-Descending :
    (p : BlkiomonStat) (t : Tree BlkiomonStat)
    → Descending (to_list t)
    → Descending (to_list (put_dstat p t))
unfolding put_dstat to_list
put_dstat-Descending p null d = d
put_dstat-Descending p (node l x r) d =
    let here = Descending-right (to_list l) (x ∷ to_list r) d in
    let early = Descending-before (to_list l) (to_list r) x d in
    let dl = Descending-left (to_list l) (x ∷ to_list r) d in
    elim (Bool-cases (ltb x.device p.device)) [
      | inl h ↦ rw h (
          Descending-join _ (to_list r) x (put_dstat-Descending p l dl) here.1
            (put_dstat-All (λ n. x.device < n) p l early) here.0)
      | inr h ↦ elim (Bool-cases (ltb p.device x.device)) [
        | inl k ↦
            rw (h, k)
              (Descending-join (to_list l) _ x dl (put_dstat-Descending p r here.1) early
                (put_dstat-All (λ n. n < x.device) p r here.0))
        | inr k ↦
            let e : x.device ≡ p.device = ground (arith, h, k) in
            rw (h, k)
              (Descending-join (to_list l) (to_list r) p dl here.1
                (subst (λ n. All (λ y. n < y.device) (to_list l)) e early)
                (subst (λ n. All (λ y. y.device < n) (to_list r)) e here.0))
      ]
    ]
