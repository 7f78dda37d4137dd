-- ===== src/Iomon/Matching/Pending.antt =====
-- The hash of blkiomon.c against a table that holds at most one trace for a device, a sector and a
-- kind of request.
use blktrace.Common.{
  ℕ, suc, ◌≡◌, refl, ap, sym, ◌∙◌, subst, Bool, true, false, Option, none, some, List, [], ◌∷◌,
  if◌then◌else◌, ◌==◌, All, find, length, Bool-cases, Option-cases, inl, inr, arith,
}
use mathlib.Core.Option
use blktrace.Trace.Record.{BlkIoTrace}
use blktrace.Iomon.Matching.{slot, same_request, fetch_from, fetch_trace, put_chain, store_trace}
use blktrace.Iomon.Matching.Chains.{
  Distinct, FetchedFrom, fetch_from-All, fetch_from-FetchedFrom, same_request-slot,
}

-- A trace stands in the chain of its sector, and is the only one for its request.
pub record IsValid (thash : ℕ → List BlkIoTrace) : Type 0 where
  pub placed : (i : ℕ) → All (λ t. slot t ≡ i) (thash i)
  pub unique : (i : ℕ) → Distinct (thash i)

-- The trace that waits for the request of u
unfoldable pub waiting : (ℕ → List BlkIoTrace) → BlkIoTrace → Option BlkIoTrace
unfolding slot
waiting thash u = find (same_request u) (thash (slot u))

-- The outcome of blkiomon_fetch_trace, for the table
abbrev pub Fetched :
    (ℕ → List BlkIoTrace) → BlkIoTrace → Option (BlkIoTrace × (ℕ → List BlkIoTrace)) → Type 0
Fetched thash bit none = waiting thash bit ≡ none
Fetched thash bit (some (t, thash')) =
    (same_request bit t ≡ true)
    × (waiting thash bit ≡ some t)
    × IsValid thash'
    × ((u : BlkIoTrace) → waiting thash' u ≡ (if same_request u t then none else waiting thash u))

put_chain-All :
    (P : ℕ → BlkIoTrace → Type 0) (thash : ℕ → List BlkIoTrace) (i : ℕ) (chain : List BlkIoTrace)
    → All (P i) chain
    → ((j : ℕ) → All (P j) (thash j))
    → (j : ℕ) → All (P j) (put_chain thash i chain j)
unfolding put_chain
put_chain-All P thash i chain a b j = elim (Bool-cases (j == i)) [
  | inl h ↦ let e : i ≡ j = ground (arith, h) in rw h (subst (λ k. All (P k) chain) e a)
  | inr h ↦ rw h (b j)
]

put_chain-Distinct :
    (thash : ℕ → List BlkIoTrace) (i : ℕ) (chain : List BlkIoTrace)
    → Distinct chain
    → ((j : ℕ) → Distinct (thash j))
    → (j : ℕ) → Distinct (put_chain thash i chain j)
unfolding put_chain
put_chain-Distinct thash i chain a b j = elim (Bool-cases (j == i)) [
  | inl h ↦ rw h a
  | inr h ↦ rw h (b j)
]

put_chain-IsValid :
    (thash : ℕ → List BlkIoTrace) (i : ℕ) (chain : List BlkIoTrace)
    → All (λ t. slot t ≡ i) chain
    → Distinct chain
    → IsValid thash
    → IsValid (put_chain thash i chain)
put_chain-IsValid thash i chain a d v = record {
  placed = put_chain-All (λ j t. slot t ≡ j) thash i chain a v.placed;
  unique = put_chain-Distinct thash i chain d v.unique;
}

-- Other chains have no trace for the request.
waiting-put_chain :
    (thash : ℕ → List BlkIoTrace) (i : ℕ) (chain : List BlkIoTrace) (u : BlkIoTrace)
    → waiting (put_chain thash i chain) u
      ≡ (if slot u == i then find (same_request u) chain else waiting thash u)
unfolding waiting put_chain
waiting-put_chain thash i chain u = elim (Bool-cases (slot u == i)) [
  | inl h ↦ rw h refl
  | inr h ↦ rw h refl
]

pub fetch_trace-Fetched :
    (thash : ℕ → List BlkIoTrace) (bit : BlkIoTrace)
    → IsValid thash
    → Fetched thash bit (fetch_trace thash bit)
unfolding fetch_trace waiting
fetch_trace-Fetched thash bit v =
    let i = slot bit in
    let from = fetch_from-FetchedFrom bit (thash i) (v.unique i) in
    elim (Option-cases (fetch_from bit (thash i))) [
      | inl e ↦ rw (fetch_trace, e) (subst (FetchedFrom bit (thash i)) e from)
      | inr ((t, left), e) ↦
          let r = subst (FetchedFrom bit (thash i)) e from in
          rw (fetch_trace, e)
            (
              r.0,
              r.1,
              put_chain-IsValid thash i left
                  (fetch_from-All (λ y. slot y ≡ i) bit (thash i) e (v.placed i)) r.3 v,
              λ u. waiting-put_chain thash i left u ∙ elim (Bool-cases (slot u == i)) [
                | inl h ↦
                    let same : slot u ≡ i = ground (arith, h) in
                    rw h (
                      r.4 u
                      ∙ ap (λ n. if same_request u t then none else find (same_request u) (thash n))
                          (sym same))
                | inr h ↦
                    let apart : same_request u t ≡ false = elim (Bool-cases (same_request u t)) [
                      | inl k ↦
                          let same : slot u ≡ i =
                            same_request-slot u t k ∙ sym (same_request-slot bit t r.0) in
                          ground (arith, h, same)
                      | inr k ↦ k
                    ] in
                    rw (h, apart) refl
              ],
            )
    ]

pub store_trace-waiting :
    (thash : ℕ → List BlkIoTrace) (t u : BlkIoTrace)
    → waiting (store_trace thash t) u ≡ (if same_request u t then some t else waiting thash u)
unfolding store_trace waiting
store_trace-waiting thash t u =
    waiting-put_chain thash (slot t) (t ∷ thash (slot t)) u ∙ elim (Bool-cases (slot u == slot t)) [
      | inl h ↦
          let same : slot t ≡ slot u = ground (arith, h) in
          rw h (ap (λ n. if same_request u t then some t else find (same_request u) (thash n)) same)
      | inr h ↦
          let apart : same_request u t ≡ false = elim (Bool-cases (same_request u t)) [
            | inl k ↦ let same = same_request-slot u t k in ground (arith, h, same)
            | inr k ↦ k
          ] in
          rw (h, apart) refl
    ]

find-All :
    (p : BlkIoTrace → Bool) (l : List BlkIoTrace) → find p l ≡ none → All (λ y. p y ≡ false) l
find-All p [] e = tt
find-All p (x ∷ l) e = elim (Bool-cases (p x)) [
  | inl h ↦ let bad : some x ≡ none = rw h at e in cc
  | inr h ↦ (h, find-All p l (rw h at e))
]

-- A trace may be stored where none waits for its request.
pub store_trace-IsValid :
    (thash : ℕ → List BlkIoTrace) (t : BlkIoTrace)
    → waiting thash t ≡ none
    → IsValid thash
    → IsValid (store_trace thash t)
unfolding store_trace waiting
store_trace-IsValid thash t e v =
    put_chain-IsValid thash (slot t) (t ∷ thash (slot t)) (refl, v.placed (slot t))
      (find-All (same_request t) (thash (slot t)) e, v.unique (slot t)) v

-- The search takes one trace out of its chain.
pub fetch_trace-length :
    (thash thash' : ℕ → List BlkIoTrace) (bit t : BlkIoTrace)
    → IsValid thash
    → fetch_trace thash bit ≡ some (t, thash')
    → (left : List BlkIoTrace) × (thash' ≡ put_chain thash (slot bit) left)
      × (length (thash (slot bit)) ≡ suc (length left))
unfolding fetch_trace
fetch_trace-length thash thash' bit t v e =
    let i = slot bit in
    elim (Option-cases (fetch_from bit (thash i))) [
      | inl f ↦ let bad : none ≡ some (t, thash') = rw (f, fetch_trace) at e in cc
      | inr ((s, left), f) ↦
          let r =
            subst (FetchedFrom bit (thash i)) f
              (fetch_from-FetchedFrom bit (thash i) (v.unique i)) in
          let g : some (s, put_chain thash i left) ≡ some (t, thash') = rw (f, fetch_trace) at e in
          (left, sym (ap (λ q. q.1) (Option.some-injective _ _ g)), r.2)
    ]
