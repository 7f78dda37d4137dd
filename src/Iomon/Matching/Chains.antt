-- ===== src/Iomon/Matching/Chains.antt =====
-- The chains of the hash of blkiomon.c: taking a trace out of one.
use blktrace.Common.{
  suc, ◌%◌, ◌≡◌, refl, ap, sym, ◌∙◌, subst, true, false, Option, none, some, List, [], ◌∷◌,
  if◌then◌else◌, All, All-weaken, find, find-nothing, length, Bool-cases, Option-cases, inl, inr,
  arith,
}
use mathlib.Core.Option
use blktrace.Trace.Record.{BlkIoTrace}
use blktrace.Iomon.Matching.{slot, same_request, fetch_from}

-- No two traces of a chain are for the same request.
abbrev pub Distinct : List BlkIoTrace → Type 0
Distinct [] = Unit {0}
Distinct (x ∷ l) = All (λ y. same_request x y ≡ false) l × Distinct l

pub same_request_refl : (a : BlkIoTrace) → same_request a a ≡ true
unfolding same_request
same_request_refl a = ground arith

pub same_request_symm : (a b : BlkIoTrace) → same_request a b ≡ same_request b a
unfolding same_request
same_request_symm a b = ground arith

-- Traces for the same request match the same traces.
pub same_request_congr :
    (a b u : BlkIoTrace) → same_request a b ≡ true → same_request u a ≡ same_request u b
unfolding same_request
same_request_congr a b u h = ground (arith, h)

pub same_request-slot : (a b : BlkIoTrace) → same_request a b ≡ true → slot a ≡ slot b
unfolding same_request slot
same_request-slot a b h =
    let e : b.sector ≡ a.sector = ground (arith, h) in ap (λ s. s % 128) (sym e)

-- The outcome of the search in a chain
abbrev pub FetchedFrom :
    BlkIoTrace → List BlkIoTrace → Option (BlkIoTrace × List BlkIoTrace) → Type 0
FetchedFrom bit chain none = find (same_request bit) chain ≡ none
FetchedFrom bit chain (some (t, left)) =
    (same_request bit t ≡ true)
    × (find (same_request bit) chain ≡ some t)
    × (length chain ≡ suc (length left))
    × Distinct left
    × ((u : BlkIoTrace)
        → find (same_request u) left
          ≡ (if same_request u t then none else find (same_request u) chain))

pub find-apart :
    (u t : BlkIoTrace) (l : List BlkIoTrace)
    → same_request u t ≡ true
    → All (λ y. same_request t y ≡ false) l
    → find (same_request u) l ≡ none
find-apart u t l h a = find-nothing (same_request u) l (
    All-weaken (λ y. same_request t y ≡ false) (λ y. same_request u y ≡ false) l
      (λ y p. same_request_symm u y ∙ same_request_congr u t y h ∙ same_request_symm y t ∙ p) a)

pub fetch_from-All :
    (P : BlkIoTrace → Type 0) (bit : BlkIoTrace) (chain : List BlkIoTrace) {t : BlkIoTrace}
    {left : List BlkIoTrace}
    → fetch_from bit chain ≡ some (t, left)
    → All P chain
    → All P left
unfolding fetch_from
fetch_from-All P bit [] e a = cc
fetch_from-All P bit (x ∷ chain) {t} {left} e a = elim (Bool-cases (same_request bit x)) [
  | inl h ↦
      let f : some (x, chain) ≡ some (t, left) = rw h at e in
      subst (All P) (ap (λ q. q.1) (Option.some-injective _ _ f)) a.1
  | inr h ↦ elim (Option-cases (fetch_from bit chain)) [
    | inl k ↦ let f : none ≡ some (t, left) = rw (h, k) at e in cc
    | inr (q, k) ↦
        let f : some (q.0, x ∷ q.1) ≡ some (t, left) = rw (h, k) at e in
        subst (All P) (ap (λ r. r.1) (Option.some-injective _ _ f))
          (a.0, fetch_from-All P bit chain k a.1)
  ]
]

pub fetch_from-FetchedFrom :
    (bit : BlkIoTrace) (chain : List BlkIoTrace)
    → Distinct chain
    → FetchedFrom bit chain (fetch_from bit chain)
unfolding fetch_from
fetch_from-FetchedFrom bit [] d = refl
fetch_from-FetchedFrom bit (t ∷ chain) d = elim (Bool-cases (same_request bit t)) [
  | inl h ↦
      rw (h, fetch_from)
        (
          h,
          rw h refl,
          refl,
          d.1,
          λ u. elim (Bool-cases (same_request u t)) [
            | inl k ↦ rw k (find-apart u t chain k d.0)
            | inr k ↦ rw k refl
          ],
        )
  | inr h ↦
      let rest = fetch_from-FetchedFrom bit chain d.1 in
      elim (Option-cases (fetch_from bit chain)) [
        | inl e ↦ rw (h, e) (rw h (subst (FetchedFrom bit chain) e rest))
        | inr ((found, left), e) ↦
            let r = subst (FetchedFrom bit chain) e rest in
            rw (h, e)
              (
                r.0,
                rw h r.1,
                ap suc r.2,
                (fetch_from-All (λ y. same_request t y ≡ false) bit chain e d.0, r.3),
                λ u. elim (Bool-cases (same_request u t)) [
                  | inl k ↦
                      let apart : same_request u found ≡ false =
                        sym (same_request_congr bit found u r.0)
                        ∙ same_request_symm u bit
                        ∙ same_request_congr u t bit k
                        ∙ h in
                      rw (k, apart) refl
                  | inr k ↦ rw k (r.4 u)
                ],
              )
      ]
]
