-- ===== src/Iowatcher/Pending/Laws.antt =====
-- io_hash_table against a map from a sector and a device to the request that is in flight.
use blktrace.Common.{
  ℕ, ◌≡◌, refl, ap, ◌∙◌, subst, true, false, ◌&&◌, Option, none, some, List, [], ◌∷◌, ◌++◌,
  if◌then◌else◌, ◌==◌, find, find-nothing, All, All-weaken, All-both, Bool-cases, inl, inr, arith,
}
use mathlib.Core.Option
use blktrace.Iowatcher.Pending.{
  PendingIo, Table, hash_sector, is_io, put_list, io_hash_table_search, set_first, del_first,
}

-- No two requests of a list have the same sector and device.
abbrev pub Distinct : List PendingIo → Type 0
Distinct [] = Unit {0}
Distinct (x ∷ l) = All (λ y. is_io x.sector x.device y ≡ false) l × Distinct l

pub record IsValid (table : Table) : Type 0 where
  pub placed : (i : ℕ) → All (λ p. hash_sector p.sector ≡ i) (table i)
  pub unique : (i : ℕ) → Distinct (table i)

module _ (P : ℕ → PendingIo → Type 0) (table : Table) (slot : ℕ) (list : List PendingIo) where
  put_list-All :
      All (P slot) list
      → ((j : ℕ) → All (P j) (table j))
      → (j : ℕ) → All (P j) (put_list table slot list j)
  unfolding put_list
  put_list-All a b j = elim (Bool-cases (j == slot)) [
    | inl h ↦ let e : slot ≡ j = ground (arith, h) in rw h (subst (λ k. All (P k) list) e a)
    | inr h ↦ rw h (b j)
  ]

put_list-Distinct :
    (table : Table) (slot : ℕ) (list : List PendingIo)
    → Distinct list
    → ((j : ℕ) → Distinct (table j))
    → (j : ℕ) → Distinct (put_list table slot list j)
unfolding put_list
put_list-Distinct table slot list a b j = elim (Bool-cases (j == slot)) [
  | inl h ↦ rw h a
  | inr h ↦ rw h (b j)
]

pub put_list-IsValid :
    (table : Table) (slot : ℕ) (list : List PendingIo)
    → All (λ p. hash_sector p.sector ≡ slot) list
    → Distinct list
    → IsValid table
    → IsValid (put_list table slot list)
put_list-IsValid table slot list a d v = record {
  placed = put_list-All (λ i p. hash_sector p.sector ≡ i) table slot list a v.placed;
  unique = put_list-Distinct table slot list d v.unique;
}

-- A search after a list was written over: in that list if the sector has its slot, and else as before.
put_list-search :
    (table : Table) (slot : ℕ) (list : List PendingIo) (sector dev : ℕ)
    → io_hash_table_search (put_list table slot list) sector dev ≡ (
        if hash_sector sector == slot
        then find (is_io sector dev) list
        else io_hash_table_search table sector dev)
unfolding io_hash_table_search put_list
put_list-search table slot list sector dev = elim (Bool-cases (hash_sector sector == slot)) [
  | inl h ↦ rw h refl
  | inr h ↦ rw h refl
]

-- What a change to the list of a sector does to the map, from what it does to the list
pub put_list-entry :
    (table : Table) (list : List PendingIo) (s d : ℕ) (o : Option PendingIo)
    → ((sector dev : ℕ)
        → find (is_io sector dev) list ≡ (
            if (sector == s) && (dev == d)
            then o
            else find (is_io sector dev) (table (hash_sector s))))
    → (sector dev : ℕ)
    → io_hash_table_search (put_list table (hash_sector s) list) sector dev
      ≡ (if (sector == s) && (dev == d) then o else io_hash_table_search table sector dev)
unfolding io_hash_table_search
put_list-entry table list s d o f sector dev =
    put_list-search table (hash_sector s) list sector dev
    ∙ elim (Bool-cases (hash_sector sector == hash_sector s)) [
      | inl h ↦
          let same : hash_sector s ≡ hash_sector sector = ground (arith, h) in
          rw h (
            f sector dev
            ∙ ap (λ n. if (sector == s) && (dev == d) then o else find (is_io sector dev) (table n))
                same)
      | inr h ↦
          let apart : (sector == s) && (dev == d) ≡ false = elim (Bool-cases (sector == s)) [
            | inl k ↦ let e : sector ≡ s = ground (arith, k) in ground (arith, h, ap hash_sector e)
            | inr k ↦ rw k refl
          ] in
          rw (h, apart) refl
    ]

-- The requests of a list have one sector and device for each search.
pub find-own :
    (s d : ℕ) (l : List PendingIo) {p : PendingIo}
    → find (is_io s d) l ≡ some p
    → (p.sector ≡ s) × (p.device ≡ d)
unfolding is_io
find-own s d [] e = cc
find-own s d (x ∷ l) {p} e = elim (Bool-cases (is_io s d x)) [
  | inl h ↦
      let f : some x ≡ some p = rw h at e in
      subst (λ y. (y.sector ≡ s) × (y.device ≡ d)) (Option.some-injective _ _ f)
        (ground (arith, h), ground (arith, h))
  | inr h ↦ find-own s d l (rw h at e)
]

pub find-snoc :
    (p : PendingIo) (l : List PendingIo) (s d : ℕ)
    → find (is_io p.sector p.device) l ≡ none
    → find (is_io s d) (l ++ p ∷ [])
      ≡ (if (s == p.sector) && (d == p.device) then some p else find (is_io s d) l)
unfolding is_io
find-snoc p [] s d e = ground arith
find-snoc p (x ∷ l) s d e = ground (arith, e, find-snoc p l s d)

pub find-set_first :
    (p q : PendingIo) (l : List PendingIo) (s d : ℕ)
    → find (is_io p.sector p.device) l ≡ some q
    → find (is_io s d) (set_first p l)
      ≡ (if (s == p.sector) && (d == p.device) then some p else find (is_io s d) l)
unfolding is_io set_first
find-set_first p q [] s d e = cc
find-set_first p q (x ∷ l) s d e = elim (Bool-cases (is_io p.sector p.device x)) [
  | inl h ↦ rw h (ground (arith, h))
  | inr h ↦ rw h (ground (arith, h, find-set_first p q l s d (rw h at e)))
]

find-apart :
    (s d : ℕ) (x : PendingIo) (l : List PendingIo)
    → is_io s d x ≡ true
    → All (λ y. is_io x.sector x.device y ≡ false) l
    → find (is_io s d) l ≡ none
unfolding is_io
find-apart s d x l h a = find-nothing (is_io s d) l (
    All-weaken (λ y. is_io x.sector x.device y ≡ false) (λ y. is_io s d y ≡ false) l
      (λ y p. ground (arith, h, p)) a)

pub find-del_first :
    (s d : ℕ) (l : List PendingIo) (s' d' : ℕ)
    → Distinct l
    → find (is_io s' d') (del_first s d l)
      ≡ (if (s' == s) && (d' == d) then none else find (is_io s' d') l)
unfolding is_io del_first
find-del_first s d [] s' d' v = ground arith
find-del_first s d (x ∷ l) s' d' v = elim (Bool-cases (is_io s d x)) [
  | inl h ↦ elim (Bool-cases ((s' == s) && (d' == d))) [
    | inl k ↦ rw (h, k) (find-apart s' d' x l (ground (arith, h, k)) v.0)
    | inr k ↦ rw (h, k) (ground (arith, h, k))
  ]
  | inr h ↦ rw h (ground (arith, h, find-del_first s d l s' d' v.1))
]

pub del_first-All :
    (P : PendingIo → Type 0) (s d : ℕ) (l : List PendingIo) → All P l → All P (del_first s d l)
unfolding del_first
del_first-All P s d [] a = a
del_first-All P s d (x ∷ l) a = elim (Bool-cases (is_io s d x)) [
  | inl h ↦ rw h a.1
  | inr h ↦ rw h (a.0, del_first-All P s d l a.1)
]

pub del_first-Distinct : (s d : ℕ) (l : List PendingIo) → Distinct l → Distinct (del_first s d l)
unfolding del_first
del_first-Distinct s d [] v = v
del_first-Distinct s d (x ∷ l) v = elim (Bool-cases (is_io s d x)) [
  | inl h ↦ rw h v.1
  | inr h ↦ rw h (
    del_first-All (λ y. is_io x.sector x.device y ≡ false) s d l v.0,
    del_first-Distinct s d l v.1,
  )
]

-- What holds of a request by its sector and device holds of it written over.
pub set_first-All :
    (P : ℕ → ℕ → Type 0) (p : PendingIo) (l : List PendingIo)
    → All (λ y. P y.sector y.device) l
    → All (λ y. P y.sector y.device) (set_first p l)
unfolding set_first is_io
set_first-All P p [] a = a
set_first-All P p (x ∷ l) a = elim (Bool-cases (is_io p.sector p.device x)) [
  | inl h ↦
      let e : x.sector ≡ p.sector = ground (arith, h) in
      let f : x.device ≡ p.device = ground (arith, h) in
      rw h (subst (λ d. P p.sector d) f (subst (λ s. P s x.device) e a.0), a.1)
  | inr h ↦ rw h (a.0, set_first-All P p l a.1)
]

pub set_first-Distinct :
    (p : PendingIo) (l : List PendingIo) → Distinct l → Distinct (set_first p l)
unfolding set_first is_io
set_first-Distinct p [] v = v
set_first-Distinct p (x ∷ l) v = elim (Bool-cases (is_io p.sector p.device x)) [
  | inl h ↦
      let e : x.sector ≡ p.sector = ground (arith, h) in
      let f : x.device ≡ p.device = ground (arith, h) in
      rw h (
        subst (λ d. All (λ y. is_io p.sector d y ≡ false) l) f
            (subst (λ s. All (λ y. is_io s x.device y ≡ false) l) e v.0),
        v.1,
      )
  | inr h ↦ rw h (
    set_first-All (λ s d. (s == x.sector) && (d == x.device) ≡ false) p l v.0,
    set_first-Distinct p l v.1,
  )
]

pub snoc-Distinct :
    (p : PendingIo) (l : List PendingIo)
    → find (is_io p.sector p.device) l ≡ none
    → Distinct l
    → Distinct (l ++ p ∷ [])
unfolding is_io
snoc-Distinct p [] e v = (tt, tt)
snoc-Distinct p (x ∷ l) e v = elim (Bool-cases (is_io p.sector p.device x)) [
  | inl h ↦ let bad : some x ≡ none = rw h at e in cc
  | inr h ↦ (
    All-both (λ y. is_io x.sector x.device y ≡ false) l (p ∷ []) v.0 (ground (arith, h), tt),
    snoc-Distinct p l (rw h at e) v.1,
  )
]
