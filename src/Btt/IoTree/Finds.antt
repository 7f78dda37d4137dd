-- ===== src/Btt/IoTree/Finds.antt =====
-- The searches of dip_rb.c, on requests that do not overlap.
use blktrace.Common.{
  ℕ, ◌≤◌, ◌<◌, ◌≡◌, refl, ap, ap₂, ◌∙◌, sym, Bool, true, false, ◌&&◌, List, [], ◌∷◌, ◌++◌,
  if◌then◌else◌, leb, ltb, All, All-left, All-right, All-both, Bool-cases, inl, inr, arith, find,
  find-none, find-left, find-nothing, All-weaken,
}
use blktrace.Trace.Record.{BlkIoTrace}
use blktrace.Parse.RbTree.{Tree, null, node, to_list}
use blktrace.Btt.IoTree.{io_start, io_end, rb_find_sec, rb_foreach}

-- Each request has a sector, and ends where the next ones start or before.
abbrev pub Disjoint : List BlkIoTrace → Type 0
Disjoint [] = Unit {0}
Disjoint (x ∷ l) = (io_start x < io_end x) × All (λ y. io_end x ≤ io_start y) l × Disjoint l

abbrev pub filter {ℓ} : {A : Type ℓ} → (A → Bool) → List A → List A
filter p [] = []
filter p (x ∷ l) = if p x then x ∷ filter p l else filter p l

-- The entries of a tree, those above before those below
unfoldable pub preorder : Tree BlkIoTrace → List BlkIoTrace
preorder null = []
preorder (node l x r) = x ∷ (preorder l ++ preorder r)

unfoldable pub has_sector : ℕ → BlkIoTrace → Bool
has_sector sec t = leb (io_start t) sec && ltb sec (io_end t)

unfoldable pub contained : ℕ → ℕ → BlkIoTrace → Bool
contained s e t = leb s (io_start t) && leb (io_end t) e

Disjoint-left : (l r : List BlkIoTrace) → Disjoint (l ++ r) → Disjoint l
Disjoint-left [] r h = tt
Disjoint-left (x ∷ l) r h =
    (h.0, All-left (λ y. io_end x ≤ io_start y) l r h.1, Disjoint-left l r h.2)

Disjoint-right : (l r : List BlkIoTrace) → Disjoint (l ++ r) → Disjoint r
Disjoint-right [] r h = h
Disjoint-right (x ∷ l) r h = Disjoint-right l r h.2

-- What stands before an entry ends before it.
Disjoint-before :
    (l r : List BlkIoTrace) (x : BlkIoTrace)
    → Disjoint (l ++ x ∷ r)
    → All (λ y. (io_start y < io_end y) × (io_end y ≤ io_start x)) l
Disjoint-before [] r x h = tt
Disjoint-before (y ∷ l) r x h =
    ((h.0, (All-right (λ z. io_end y ≤ io_start z) l (x ∷ r) h.1).0), Disjoint-before l r x h.2)

filter-nothing :
    (p : BlkIoTrace → Bool) (l : List BlkIoTrace) → All (λ y. p y ≡ false) l → filter p l ≡ []
filter-nothing p [] h = refl
filter-nothing p (x ∷ l) h = rw (h.0) (filter-nothing p l h.1)

filter-append :
    (p : BlkIoTrace → Bool) (l r : List BlkIoTrace) → filter p (l ++ r) ≡ filter p l ++ filter p r
filter-append p [] r = refl
filter-append p (x ∷ l) r = elim (Bool-cases (p x)) [
  | inl h ↦ rw h (ap (λ k. x ∷ k) (filter-append p l r))
  | inr h ↦ rw h (filter-append p l r)
]

All-preorder :
    (P : BlkIoTrace → Type 0) (t : Tree BlkIoTrace) → All P (to_list t) → All P (preorder t)
unfolding to_list preorder
All-preorder P null h = tt
All-preorder P (node l x r) h =
    let here = All-right P (to_list l) (x ∷ to_list r) h in
    (
      here.0,
      All-both P (preorder l) (preorder r)
          (All-preorder P l (All-left P (to_list l) (x ∷ to_list r) h)) (All-preorder P r here.1),
    )

rb_find_sec-find :
    (t : Tree BlkIoTrace) (sec : ℕ)
    → Disjoint (to_list t)
    → rb_find_sec t sec ≡ find (has_sector sec) (to_list t)
unfolding rb_find_sec to_list has_sector
rb_find_sec-find null sec d = refl
rb_find_sec-find (node l x r) sec d =
    let here = Disjoint-right (to_list l) (x ∷ to_list r) d in
    let early = Disjoint-before (to_list l) (to_list r) x d in
    let left = rb_find_sec-find l sec (Disjoint-left (to_list l) (x ∷ to_list r) d) in
    let right = rb_find_sec-find r sec here.2 in
    elim (Bool-cases (ltb sec (io_start x))) [
      | inl h ↦
          let none_here : has_sector sec x ≡ false = ground (arith, h) in
          let none_after = find-nothing (has_sector sec) (to_list r) (
            All-weaken (λ y. io_end x ≤ io_start y) (λ y. has_sector sec y ≡ false) (to_list r)
              (λ y p. ground (arith, p, h, here.0)) here.1) in
          rw (h, rb_find_sec)
            (left
              ∙ sym (
                  find-left (has_sector sec) (to_list l) (x ∷ to_list r)
                    (rw (none_here) none_after)))
      | inr h ↦
          let none_before : All (λ y. has_sector sec y ≡ false) (to_list l) =
            All-weaken (λ y. (io_start y < io_end y) × (io_end y ≤ io_start x))
              (λ y. has_sector sec y ≡ false) (to_list l) (λ y p. ground (arith, p.1, h)) early in
          let passed = find-none (has_sector sec) (to_list l) (x ∷ to_list r) none_before in
          elim (Bool-cases (leb (io_end x) sec)) [
            | inl k ↦
                let none_here : has_sector sec x ≡ false = ground (arith, k) in
                rw (h, k, rb_find_sec) (right ∙ sym (passed ∙ (rw (none_here) refl)))
            | inr k ↦
                let it_is : has_sector sec x ≡ true = ground (arith, h, k) in
                rw (h, k, rb_find_sec) (sym (passed ∙ (rw (it_is) refl)))
          ]
    ]

-- A subtree is left out only where it has no request within the sectors.
part :
    (c : Bool) (s e : ℕ) (t : Tree BlkIoTrace)
    → rb_foreach s e t ≡ filter (contained s e) (preorder t)
    → (c ≡ false → All (λ y. contained s e y ≡ false) (to_list t))
    → (if c then rb_foreach s e t else []) ≡ filter (contained s e) (preorder t)
part true s e t h n = h
part false s e t h n = sym (
    filter-nothing (contained s e) (preorder t)
      (All-preorder (λ y. contained s e y ≡ false) t (n refl)))

rb_foreach-filter :
    (t : Tree BlkIoTrace) (s e : ℕ)
    → Disjoint (to_list t)
    → rb_foreach s e t ≡ filter (contained s e) (preorder t)
unfolding rb_foreach to_list preorder contained
rb_foreach-filter null s e d = refl
rb_foreach-filter (node l x r) s e d =
    let here = Disjoint-right (to_list l) (x ∷ to_list r) d in
    let early = Disjoint-before (to_list l) (to_list r) x d in
    let left =
      part (ltb s (io_start x)) s e l
        (rb_foreach-filter l s e (Disjoint-left (to_list l) (x ∷ to_list r) d))
        (λ h.
          All-weaken (λ y. (io_start y < io_end y) × (io_end y ≤ io_start x))
            (λ y. contained s e y ≡ false) (to_list l) (λ y p. ground (arith, p.0, p.1, h))
            early) in
    let right =
      part (ltb (io_end x) e) s e r (rb_foreach-filter r s e here.2)
        (λ h. starts_late (to_list r) h here.1 here.2) in
    ap₂ (λ a b. (if contained s e x then x ∷ [] else []) ++ (a ++ b)) left right
    ∙ (ap (λ k. (if contained s e x then x ∷ [] else []) ++ k)
          (sym (filter-append (contained s e) (preorder l) (preorder r)))
        ∙ head_part (contained s e x) (filter (contained s e) (preorder l ++ preorder r)))
  where
    starts_late :
        (k : List BlkIoTrace)
        → ltb (io_end x) e ≡ false
        → All (λ y. io_end x ≤ io_start y) k
        → Disjoint k
        → All (λ y. contained s e y ≡ false) k
    starts_late [] h p q = tt
    starts_late (y ∷ k) h p q = (ground (arith, h, p.0, q.0), starts_late k h p.1 q.2)

    head_part :
        (c : Bool) (k : List BlkIoTrace)
        → (if c then x ∷ [] else []) ++ k ≡ (if c then x ∷ k else k)
    head_part true k = refl
    head_part false k = refl

-- On a tree of requests with at least one sector that do not overlap and stand in order, rb_find_sec gives
-- the request that has the sector, as a search through all of them does, or none; and rb_foreach meets
-- exactly the requests within the given sectors, each once, those above in the tree before those below.
pub rb_find_sec-rb_foreach :
    (t : Tree BlkIoTrace) (sec s e : ℕ)
    → Disjoint (to_list t)
    → (rb_find_sec t sec ≡ find (has_sector sec) (to_list t))
      × (rb_foreach s e t ≡ filter (contained s e) (preorder t))
rb_find_sec-rb_foreach t sec s e d = (rb_find_sec-find t sec d, rb_foreach-filter t s e d)
