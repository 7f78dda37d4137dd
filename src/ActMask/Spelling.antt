-- ===== src/ActMask/Spelling.antt =====
-- When strcasecmp takes two texts as one.
use blktrace.Common.{
  ℕ, ◌≡◌, refl, ap₂, Bool, true, ◌&&◌, ◌+◌, ◌≤◌, ltb, ◌==◌, List, [], ◌∷◌, map, arith, Bool-cases,
  inl, inr, ◌⊎◌,
}
use blktrace.ActMask.{tolower, strcasecmp_eq}

abbrev pub fold : List ℕ → List ℕ
fold = map tolower

tolower-tolower : (c : ℕ) → tolower (tolower c) ≡ tolower c
unfolding tolower
tolower-tolower c = ground arith

pub strcasecmp_eq-fold : (a s : List ℕ) → strcasecmp_eq a (fold s) ≡ strcasecmp_eq a s
unfolding strcasecmp_eq
strcasecmp_eq-fold [] [] = refl
strcasecmp_eq-fold [] (c ∷ s) = refl
strcasecmp_eq-fold (x ∷ a) [] = refl
strcasecmp_eq-fold (x ∷ a) (c ∷ s) = rw (tolower-tolower c, strcasecmp_eq-fold a s)

pub strcasecmp_eq-true : (a s : List ℕ) → strcasecmp_eq a s ≡ true → fold a ≡ fold s
unfolding strcasecmp_eq
strcasecmp_eq-true [] [] h = refl
strcasecmp_eq-true [] (c ∷ s) h = cc
strcasecmp_eq-true (x ∷ a) [] h = cc
strcasecmp_eq-true (x ∷ a) (c ∷ s) h =
    ap₂ ◌∷◌ (ground arith) (strcasecmp_eq-true a s (ground arith))

-- The text is the name, where any capital letter may stand as the small one.
abbrev pub Spells : List ℕ → List ℕ → Type 0
Spells [] [] = Unit {0}
Spells (c ∷ s) (x ∷ n) = ((c ≡ x) ⊎ ((b'A' ≤ x) × (x ≤ b'Z') × (c ≡ x + 32))) × Spells s n
Spells [] (x ∷ n) = ⊥
Spells (c ∷ s) [] = ⊥

pub Spells-strcasecmp_eq : (s n : List ℕ) → Spells s n → strcasecmp_eq n s ≡ true
unfolding strcasecmp_eq tolower
Spells-strcasecmp_eq [] [] h = refl
Spells-strcasecmp_eq (c ∷ s) (x ∷ n) (inl e, h) = ground (arith, e, Spells-strcasecmp_eq s n h)
Spells-strcasecmp_eq (c ∷ s) (x ∷ n) (inr (l, u, e), h) =
    ground (arith, e, l, u, Spells-strcasecmp_eq s n h)
Spells-strcasecmp_eq [] (x ∷ n) h = absurd h
Spells-strcasecmp_eq (c ∷ s) [] h = absurd h

-- Names have no small letters.
abbrev pub no_small : List ℕ → Bool
no_small [] = true
no_small (x ∷ n) = ltb x b'a' && no_small n

pub strcasecmp_eq-Spells :
    (s n : List ℕ) → no_small n ≡ true → strcasecmp_eq n s ≡ true → Spells s n
unfolding strcasecmp_eq tolower
strcasecmp_eq-Spells [] [] a h = tt
strcasecmp_eq-Spells (c ∷ s) (x ∷ n) a h =
    (letter, strcasecmp_eq-Spells s n (ground arith) (ground arith))
  where
    letter : (c ≡ x) ⊎ ((b'A' ≤ x) × (x ≤ b'Z') × (c ≡ x + 32))
    letter = elim (Bool-cases (c == x)) [
      | inl e ↦ inl (ground arith)
      | inr e ↦ inr (ground arith, ground arith, ground arith)
    ]
strcasecmp_eq-Spells [] (x ∷ n) a h = cc
strcasecmp_eq-Spells (c ∷ s) [] a h = cc
