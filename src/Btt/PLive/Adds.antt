-- ===== src/Btt/PLive/Adds.antt =====
-- The tree of p_live.c holds separate intervals in order, which cover what was added.
use blktrace.Common.{
  ℕ, zero, suc, ◌+◌, ◌<◌, ◌≤◌, ◌≡◌, refl, ap, sym, ◌∙◌, subst, min, max, Bool, true, false, ◌||◌,
  none, some, ltb, List, [], ◌∷◌, ◌++◌, append_assoc, length, length-append, get_elem?, All,
  All-right, All-both, Bool-cases, Option-cases, inl, inr, arith,
}
use blktrace.Parse.RbTree.{Tree, null, node, RbOps, link, link_place, size, to_list}
use blktrace.Btt.PLive.{PLive, inside, walk, __p_live_add, p_live_add}
use blktrace.Btt.PLive.Cover.{
  Apart, within, covered, Apart-left, Apart-right, Apart-erase, covered-erase, length-erase,
  get_elem?-Apart, within-hull, Apart-between, covered-between,
}

size-length : (t : Tree PLive) → size t ≡ length (to_list t)
unfolding size to_list
size-length null = refl
size-length (node l x r) =
    omega (arith, size-length l, size-length r, length-append (to_list l) (x ∷ to_list r))

get_elem?-after :
    (l r : List PLive) (x : PLive) (i k : ℕ)
    → k ≡ length l + suc i
    → get_elem? (l ++ x ∷ r) k ≡ get_elem? r i
get_elem?-after [] r x i k e =
    let same : suc i ≡ k = omega (arith, e) in
    subst (λ j. get_elem? (x ∷ r) j ≡ get_elem? r i) same refl
get_elem?-after (y ∷ l) r x i zero e = absurd (omega (arith, e))
get_elem?-after (y ∷ l) r x i (suc k) e = get_elem?-after l r x i k (omega (arith, e))

All-weaken : (P Q : PLive → Type 0) (l : List PLive) → ((y : PLive) → P y → Q y) → All P l → All Q l
All-weaken P Q [] f h = tt
All-weaken P Q (x ∷ l) f h = (f x h.0, All-weaken P Q l f h.1)

Apart-before : (l r : List PLive) (x : PLive) → Apart (l ++ x ∷ r) → All (λ y. y.ct < x.dt) l
Apart-before [] r x h = tt
Apart-before (y ∷ l) r x h =
    ((All-right (λ z. y.ct < z.dt) l (x ∷ r) h.1).0, Apart-before l r x h.2)

get_elem?-at : (l r : List PLive) (x : PLive) → get_elem? (l ++ x ∷ r) (length l) ≡ some x
get_elem?-at [] r x = refl
get_elem?-at (y ∷ l) r x = get_elem?-at l r x

get_elem?-left :
    (l r : List PLive) (i : ℕ) (u : PLive) → get_elem? l i ≡ some u → get_elem? (l ++ r) i ≡ some u
get_elem?-left [] r i u e = cc
get_elem?-left (y ∷ l) r zero u e = e
get_elem?-left (y ∷ l) r (suc i) u e = get_elem?-left l r i u e

-- What the walk finds stands where it says, and meets the interval.
walk-some :
    (dt ct base place : ℕ) (u : PLive) (t : Tree PLive)
    → walk dt ct base t ≡ some (place, u)
    → (i : ℕ) × (place ≡ base + i) × (get_elem? (to_list t) i ≡ some u) × (inside u dt ct ≡ true)
unfolding walk to_list
walk-some dt ct base place u null e = cc
walk-some dt ct base place u (node l x r) e = elim (Bool-cases (inside x dt ct)) [
  | inl h ↦
      let e' : some (base + size l, x) ≡ some (place, u) =
        subst (λ k. k ≡ some (place, u)) (rw (h, walk) refl) e in
      let same : x ≡ u = cc in
      let there : base + size l ≡ place = cc in
      (
        size l,
        sym there,
        subst (λ k. get_elem? (to_list l ++ x ∷ to_list r) k ≡ some u) (sym (size-length l))
            (get_elem?-at (to_list l) (to_list r) x ∙ ap some same),
        subst (λ k. inside k dt ct ≡ true) same h,
      )
  | inr h ↦ elim (Bool-cases (ltb ct x.dt)) [
    | inl b ↦
        let e' : walk dt ct base l ≡ some (place, u) =
          subst (λ k. k ≡ some (place, u)) (rw (h, b, walk) refl) e in
        let (i, p, g, m) = walk-some dt ct base place u l e' in
        (i, p, get_elem?-left (to_list l) (x ∷ to_list r) i u g, m)
    | inr b ↦
        let e' : walk dt ct (base + suc (size l)) r ≡ some (place, u) =
          subst (λ k. k ≡ some (place, u)) (rw (h, b, walk) refl) e in
        let (i, p, g, m) = walk-some dt ct (base + suc (size l)) place u r e' in
        (
          length (to_list l) + suc i,
          omega (arith, p, size-length l),
          get_elem?-after (to_list l) (to_list r) x i (length (to_list l) + suc i) refl ∙ g,
          m,
        )
  ]
]

-- Where the walk finds nothing, the new entry is linked between those before and those after it.
abbrev Linked : ℕ → ℕ → Tree PLive → Type 0
Linked dt ct t =
    (l : List PLive) × (r : List PLive) × (to_list t ≡ l ++ r)
    × (to_list (link (λ u. ltb ct u.dt) (record { dt = dt; ct = ct }) t)
        ≡ l ++ record { dt = dt; ct = ct } ∷ r)
    × All (λ y. y.ct < dt) l
    × All (λ y. ct < y.dt) r

past : {dt ct : ℕ} (x : PLive) → dt ≤ ct → inside x dt ct ≡ false → ltb ct x.dt ≡ false → x.ct < dt
unfolding inside
past x h m b = ground (arith, m, b)

walk-none :
    (dt ct base : ℕ) (t : Tree PLive)
    → dt ≤ ct
    → Apart (to_list t)
    → walk dt ct base t ≡ none
    → Linked dt ct t
unfolding walk to_list link
walk-none dt ct base null h a e = ([], [], refl, refl, tt, tt)
walk-none dt ct base (node l x r) h a e = elim (Bool-cases (inside x dt ct)) [
  | inl m ↦
      let e' : some (base + size l, x) ≡ none = subst (λ k. k ≡ none) (rw (m, walk) refl) e in cc
  | inr m ↦ elim (Bool-cases (ltb ct x.dt)) [
    | inl b ↦
        let e' : walk dt ct base l ≡ none = subst (λ k. k ≡ none) (rw (m, b, walk) refl) e in
        let (front, back, split, linked, before, after) =
          walk-none dt ct base l h (Apart-left (to_list l) (x ∷ to_list r) a) e' in
        let here = Apart-right (to_list l) (x ∷ to_list r) a in
        let low : ct < x.dt = ground (arith, b) in
        let tail = x ∷ to_list r in
        (
          front,
          back ++ tail,
          ap (λ k. k ++ tail) split ∙ append_assoc front back tail,
          rw (b) (
              ap (λ k. k ++ tail) linked
              ∙ append_assoc front (record { dt = dt; ct = ct } ∷ back) tail),
          before,
          All-both (λ y. ct < y.dt) back tail after
              (
                low,
                All-weaken (λ y. x.ct < y.dt) (λ y. ct < y.dt) (to_list r)
                    (λ y p. omega (arith, p, low, here.0)) here.1,
              ),
        )
    | inr b ↦
        let e' : walk dt ct (base + suc (size l)) r ≡ none =
          subst (λ k. k ≡ none) (rw (m, b, walk) refl) e in
        let (front, back, split, linked, before, after) =
          walk-none dt ct (base + suc (size l)) r h (Apart-right (to_list l) (x ∷ to_list r) a).2
            e' in
        let here = Apart-right (to_list l) (x ∷ to_list r) a in
        let high : x.ct < dt = past x h m b in
        let early = Apart-before (to_list l) (to_list r) x a in
        (
          to_list l ++ x ∷ front,
          back,
          ap (λ k. to_list l ++ x ∷ k) split ∙ sym (append_assoc (to_list l) (x ∷ front) back),
          rw (b) (
              ap (λ k. to_list l ++ x ∷ k) linked
              ∙ sym (append_assoc (to_list l) (x ∷ front) (record { dt = dt; ct = ct } ∷ back))),
          All-both (λ y. y.ct < dt) (to_list l) (x ∷ front)
              (All-weaken (λ y. y.ct < x.dt) (λ y. y.ct < dt) (to_list l)
                (λ y p. omega (arith, p, high, here.0)) early)
              (high, before),
          after,
        )
  ]
]

-- What an addition leaves: separate intervals in order, that cover what they did and the new one.
pub record Added (dt ct : ℕ) (before after : List PLive) : Type 0 where
  pub apart : Apart after
  pub cover : (t : ℕ) → covered t after ≡ (covered t before || within t dt ct)

module _ (ops : RbOps) where
  open ops use {rb_insert_color, rb_insert_color_lem, rb_erase, rb_erase_lem}

  insert-Added :
      (dt ct : ℕ) (root : Tree PLive)
      → dt ≤ ct
      → Apart (to_list root)
      → Linked dt ct root
      → Added dt ct
          (to_list root)
          (to_list (link (λ u. ltb ct u.dt) (record { dt = dt; ct = ct }) root))
  insert-Added dt ct root h a (l, r, split, linked, before, after) = record {
    apart = subst Apart (sym linked) (Apart-between dt ct l r h (subst Apart split a) before after);
    cover = λ t.
        ap (covered t) linked
        ∙ (covered-between t dt ct l r ∙ ap (λ k. covered t k || within t dt ct) (sym split));
  }

  __p_live_add-Added :
      (fuel dt ct : ℕ) (root : Tree PLive)
      → dt ≤ ct
      → length (to_list root) < fuel
      → Apart (to_list root)
      → Added dt ct (to_list root) (to_list (__p_live_add ops fuel root dt ct))
  unfolding __p_live_add
  __p_live_add-Added zero dt ct root h f a = absurd (omega (arith, f))
  __p_live_add-Added (suc fuel) dt ct root h f a = elim (Option-cases (walk dt ct 0 root)) [
    | inl e ↦
        let left = λ (u : PLive). ltb ct u.dt in
        let e' : __p_live_add ops (suc fuel) root dt ct
            ≡ rb_insert_color (link_place left root)
                (link left (record { dt = dt; ct = ct }) root) =
          rw (e, __p_live_add) refl in
        subst (Added dt ct (to_list root))
          (sym (
            ap to_list e'
            ∙ rb_insert_color_lem (link_place left root)
                (link left (record { dt = dt; ct = ct }) root)))
          (insert-Added dt ct root h a (walk-none dt ct 0 root h a e))
    | inr ((place, u), e) ↦
        let (i, p, g, m) = walk-some dt ct 0 place u root e in
        let there : place ≡ i = omega (arith, p) in
        let g' : get_elem? (to_list root) place ≡ some u =
          subst (λ k. get_elem? (to_list root) k ≡ some u) (sym there) g in
        let valid = get_elem?-Apart place (to_list root) u g' a in
        let erased = rb_erase_lem place root in
        let shorter = length-erase place (to_list root) u g' in
        let rest =
          __p_live_add-Added fuel (min u.dt dt) (max u.ct ct) (rb_erase place root)
            (omega (arith, h, valid)) (omega (arith, f, shorter, ap length erased))
            (subst Apart (sym erased) (Apart-erase place (to_list root) a)) in
        let e' : __p_live_add ops (suc fuel) root dt ct
            ≡ __p_live_add ops fuel (rb_erase place root) (min u.dt dt) (max u.ct ct) =
          rw (e, __p_live_add) refl in
        subst (λ k. Added dt ct (to_list root) (to_list k)) (sym e')
          (record {
            apart = rest.apart;
            cover = λ t.
                rest.cover t
                ∙ merged (covered t (to_list root)) (within t u.dt u.ct) (within t dt ct)
                    (ap (covered t) erased) (covered-erase t place (to_list root) u g')
                    (within-hull t dt ct u h valid m);
          })
  ]
    where
      merged :
          {c d k : Bool} (a b n : Bool) → c ≡ d → a ≡ (d || b) → k ≡ (b || n) → (c || k) ≡ (a || n)
      merged a b n h j k = ground (arith, h, j, k)

  -- p_live_add on trees of separate intervals in order, for an interval that does not end before it
  -- starts: in both trees the calls of __p_live_add come to an end, and leave separate intervals in order
  -- which cover exactly the times that the tree or the new interval covered.
  pub p_live_add-Added :
      (handle root : Tree PLive) (dt ct : ℕ)
      → dt ≤ ct
      → Apart (to_list handle)
      → Apart (to_list root)
      → Added dt ct (to_list handle) (to_list (p_live_add ops (handle, root) dt ct).0)
        × Added dt ct (to_list root) (to_list (p_live_add ops (handle, root) dt ct).1)
  unfolding p_live_add
  p_live_add-Added handle root dt ct h a b = (
    __p_live_add-Added (suc (size handle)) dt ct handle h (omega (arith, size-length handle)) a,
    __p_live_add-Added (suc (size root)) dt ct root h (omega (arith, size-length root)) b,
  )
