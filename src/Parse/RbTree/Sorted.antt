-- ===== src/Parse/RbTree/Sorted.antt =====
-- A walk that goes by an order puts the new entry where the order of the entries has it.
use blktrace.Common.{
  ◌≡◌, refl, ap, sym, ◌∙◌, Bool, true, false, if◌then◌else◌, List, [], ◌∷◌, ◌++◌, Bool-cases, inl,
  inr, All,
}
use blktrace.Parse.RbTree.{Tree, null, node, to_list, link}

module _ {A : Type 0} (before : A → A → Bool) where
  -- An entry put into a list before the first one that it precedes.
  unfoldable pub insert : A → List A → List A
  insert x [] = x ∷ []
  insert x (y ∷ ys) = if before x y then x ∷ y ∷ ys else y ∷ insert x ys

  -- No entry precedes one that stands before it.
  abbrev pub IsSorted : List A → Type 0
  IsSorted [] = Unit {0}
  IsSorted (x ∷ xs) = All (λ y. before y x ≡ false) xs × IsSorted xs

  insert-append_left :
      (x y : A) (ls rs : List A)
      → before x y ≡ true
      → insert x (ls ++ y ∷ rs) ≡ insert x ls ++ y ∷ rs
  unfolding insert
  insert-append_left x y [] rs h = rw h
  insert-append_left x y (z ∷ ls) rs h = elim (Bool-cases (before x z)) [
    | inl t ↦ rw t
    | inr t ↦ rw t (ap (◌∷◌ z) (insert-append_left x y ls rs h))
  ]

  insert-append_right :
      (x : A) (ls rs : List A)
      → All (λ y. before x y ≡ false) ls
      → insert x (ls ++ rs) ≡ ls ++ insert x rs
  unfolding insert
  insert-append_right x [] rs h = refl
  insert-append_right x (z ∷ ls) rs h = rw h.0 (ap (◌∷◌ z) (insert-append_right x ls rs h.1))

  IsSorted-left : (ls rs : List A) → IsSorted (ls ++ rs) → IsSorted ls
  IsSorted-left [] rs h = tt
  IsSorted-left (x ∷ ls) rs h = (all_left ls h.0, IsSorted-left ls rs h.1)
    where
      all_left :
          (k : List A) → All (λ y. before y x ≡ false) (k ++ rs) → All (λ y. before y x ≡ false) k
      all_left [] a = tt
      all_left (y ∷ k) a = (a.0, all_left k a.1)

  IsSorted-right : (ls rs : List A) → IsSorted (ls ++ rs) → IsSorted rs
  IsSorted-right [] rs h = h
  IsSorted-right (x ∷ ls) rs h = IsSorted-right ls rs h.1

  -- What goes with x past y goes past all that stand before y.
  module _
      (trans : (x y z : A) → before x y ≡ false → before y z ≡ false → before x z ≡ false) where
    passes :
        (x y : A) (ls rs : List A)
        → before x y ≡ false
        → IsSorted (ls ++ y ∷ rs)
        → All (λ z. before x z ≡ false) ls
    passes x y [] rs h s = tt
    passes x y (z ∷ ls) rs h s = (trans x y z h (at_y ls s.0), passes x y ls rs h s.1)
      where
        at_y : (k : List A) → All (λ w. before w z ≡ false) (k ++ y ∷ rs) → before y z ≡ false
        at_y [] a = a.0
        at_y (w ∷ k) a = at_y k a.1

    -- link is insertion into the list of the entries, if they are sorted.
    pub to_list-link :
        (x : A) (t : Tree A)
        → IsSorted (to_list t)
        → to_list (link (before x) x t) ≡ insert x (to_list t)
    unfolding link to_list insert
    to_list-link x null s = refl
    to_list-link x (node l y r) s = elim (Bool-cases (before x y)) [
      | inl h ↦ rw h (
          ap (λ k. k ++ y ∷ to_list r)
            (to_list-link x l (IsSorted-left (to_list l) (y ∷ to_list r) s))
          ∙ sym (insert-append_left x y (to_list l) (to_list r) h))
      | inr h ↦ rw h (
          ap (λ k. to_list l ++ y ∷ k)
            (to_list-link x r (IsSorted-right (to_list l) (y ∷ to_list r) s).1)
          ∙ sym (
              insert-append_right x (to_list l) (y ∷ to_list r)
                (passes x y (to_list l) (to_list r) h s)
              ∙ (rw h refl)))
    ]

    insert-All : (P : A → Type 0) (x : A) (l : List A) → P x → All P l → All P (insert x l)
    unfolding insert
    insert-All P x [] p a = (p, tt)
    insert-All P x (y ∷ l) p a = elim (Bool-cases (before x y)) [
      | inl t ↦ rw t (p, a)
      | inr t ↦ rw t (a.0, insert-All P x l p a.1)
    ]

    pub insert-IsSorted :
        ((x y : A) → before x y ≡ true → before y x ≡ false)
        → (x : A) (l : List A) → IsSorted l
        → IsSorted (insert x l)
    unfolding insert
    insert-IsSorted asym x [] s = (tt, tt)
    insert-IsSorted asym x (y ∷ l) s = elim (Bool-cases (before x y)) [
      | inl t ↦ rw t ((asym x y t, later l s.0 (asym x y t)), s)
      | inr t ↦ rw t (insert-All (λ z. before z y ≡ false) x l t s.0, insert-IsSorted asym x l s.1)
    ]
      where
        later :
            (k : List A)
            → All (λ z. before z y ≡ false) k
            → before y x ≡ false
            → All (λ z. before z x ≡ false) k
        later [] a h = tt
        later (z ∷ k) a h = (trans z y x a.0 h, later k a.1 h)
