-- ===== src/Parse/Streams/Order.antt =====
-- The list ms_head: ms_sort and ms_resort keep it in the order of the streams' next traces, and
-- keep every stream.
use mathlib.Core.List.{Perm, perm_append_comm}
use mathlib.Core.List.Perm
use blktrace.Common.{
  ℕ, ◌++◌, ◌≤◌, Bool, List, [], ◌∷◌, inl, inr, arith, ltb, append_assoc, Bool-cases, subst,
}
use blktrace.Trace.Record.{BlkIoTrace}
use blktrace.Parse.Streams.{MsStream, ms_peek_time, sort_after, ms_sort, ms_resort}
use blktrace.Parse.Streams.Read.{pending}

-- Every stream of the list starts at the time m or later.
abbrev pub HeadsFrom : ℕ → List MsStream → Type 0
HeadsFrom m [] = Unit {0}
HeadsFrom m (s ∷ rest) = (m ≤ ms_peek_time s) × HeadsFrom m rest

-- The list is in the order of the streams' next traces.
abbrev pub Ordered : List MsStream → Type 0
Ordered [] = Unit {0}
Ordered (s ∷ rest) = HeadsFrom (ms_peek_time s) rest × Ordered rest

abbrev pub Each : (MsStream → Type 0) → List MsStream → Type 0
Each P [] = Unit {0}
Each P (s ∷ rest) = P s × Each P rest

pub HeadsFrom-mono : {m n : ℕ} (l : List MsStream) → n ≤ m → HeadsFrom m l → HeadsFrom n l
HeadsFrom-mono [] h f = tt
HeadsFrom-mono {m} {n} (s ∷ rest) h f = (omega arith, HeadsFrom-mono {m = m} {n = n} rest h f.1)

sort_after-HeadsFrom :
    (m : ℕ) (msp : MsStream) (l : List MsStream)
    → m ≤ ms_peek_time msp
    → HeadsFrom m l
    → HeadsFrom m (sort_after msp l)
unfolding sort_after
sort_after-HeadsFrom m msp [] h f = (h, tt)
sort_after-HeadsFrom m msp (next ∷ rest) h f =
    elim (Bool-cases (ltb (ms_peek_time next) (ms_peek_time msp))) [
      | inl e ↦ rw e (f.0, sort_after-HeadsFrom m msp rest h f.1)
      | inr e ↦ rw e (h, f)
    ]

sort_after-Ordered : (msp : MsStream) (l : List MsStream) → Ordered l → Ordered (sort_after msp l)
unfolding sort_after
sort_after-Ordered msp [] o = (tt, tt)
sort_after-Ordered msp (next ∷ rest) o =
    elim (Bool-cases (ltb (ms_peek_time next) (ms_peek_time msp))) [
      | inl e ↦
          rw e (sort_after-HeadsFrom _ msp rest (ground arith) o.0, sort_after-Ordered msp rest o.1)
      | inr e ↦ rw e (
        (
          ground arith,
          HeadsFrom-mono {m = ms_peek_time next} {n = ms_peek_time msp} rest (ground arith) o.0,
        ),
        o,
      )
    ]

pub ms_sort-Ordered : (msp : MsStream) (l : List MsStream) → Ordered l → Ordered (ms_sort msp l)
unfolding ms_sort
ms_sort-Ordered msp [] o = (tt, tt)
ms_sort-Ordered msp (next ∷ rest) o =
    elim (Bool-cases (ltb (ms_peek_time msp) (ms_peek_time next))) [
      | inl e ↦ rw e (
        (
          ground arith,
          HeadsFrom-mono {m = ms_peek_time next} {n = ms_peek_time msp} rest (ground arith) o.0,
        ),
        o,
      )
      | inr e ↦
          rw e (sort_after-HeadsFrom _ msp rest (ground arith) o.0, sort_after-Ordered msp rest o.1)
    ]

pub ms_resort-Ordered : (msp : MsStream) (l : List MsStream) → Ordered l → Ordered (ms_resort msp l)
unfolding ms_resort
ms_resort-Ordered msp [] o = (tt, tt)
ms_resort-Ordered msp (next ∷ rest) o =
    elim (Bool-cases (ltb (ms_peek_time next) (ms_peek_time msp))) [
      | inl e ↦ rw e (ms_sort-Ordered msp (next ∷ rest) o)
      | inr e ↦ rw e (
        (
          ground arith,
          HeadsFrom-mono {m = ms_peek_time next} {n = ms_peek_time msp} rest (ground arith) o.0,
        ),
        o,
      )
    ]

-- Any property of streams that all the streams have.
module _ (P : MsStream → Type 0) where
  sort_after-Each :
      (msp : MsStream) (l : List MsStream) → P msp → Each P l → Each P (sort_after msp l)
  unfolding sort_after
  sort_after-Each msp [] p e = (p, tt)
  sort_after-Each msp (next ∷ rest) p e =
      elim (Bool-cases (ltb (ms_peek_time next) (ms_peek_time msp))) [
        | inl t ↦ rw t (e.0, sort_after-Each msp rest p e.1)
        | inr t ↦ rw t (p, e)
      ]

  pub ms_sort-Each :
      (msp : MsStream) (l : List MsStream) → P msp → Each P l → Each P (ms_sort msp l)
  unfolding ms_sort
  ms_sort-Each msp [] p e = (p, tt)
  ms_sort-Each msp (next ∷ rest) p e =
      elim (Bool-cases (ltb (ms_peek_time msp) (ms_peek_time next))) [
        | inl t ↦ rw t (p, e)
        | inr t ↦ rw t (e.0, sort_after-Each msp rest p e.1)
      ]

  pub ms_resort-Each :
      (msp : MsStream) (l : List MsStream) → P msp → Each P l → Each P (ms_resort msp l)
  unfolding ms_resort
  ms_resort-Each msp [] p e = (p, tt)
  ms_resort-Each msp (next ∷ rest) p e =
      elim (Bool-cases (ltb (ms_peek_time next) (ms_peek_time msp))) [
        | inl t ↦ rw t (ms_sort-Each msp (next ∷ rest) p e)
        | inr t ↦ rw t (p, e)
      ]

module _ (b : Bool) where
  -- All that is still to come from the streams, one after another.
  unfoldable pub total : List MsStream → List BlkIoTrace
  total [] = []
  total (s ∷ rest) = pending b s ++ total rest

  pub swap_blocks : (xs ys zs : List BlkIoTrace) → Perm (xs ++ (ys ++ zs)) (ys ++ (xs ++ zs))
  swap_blocks xs ys zs =
      subst (λ l. Perm l (ys ++ (xs ++ zs))) (append_assoc xs ys zs)
        (subst (λ l. Perm ((xs ++ ys) ++ zs) l) (append_assoc ys xs zs)
          (Perm.append_right zs (perm_append_comm xs ys)))

  sort_after-total :
      (msp : MsStream) (l : List MsStream)
      → Perm (total (sort_after msp l)) (pending b msp ++ total l)
  unfolding sort_after total
  sort_after-total msp [] = Perm.refl _
  sort_after-total msp (next ∷ rest) =
      elim (Bool-cases (ltb (ms_peek_time next) (ms_peek_time msp))) [
        | inl t ↦ rw t (
            Perm.trans (Perm.append_left (pending b next) (sort_after-total msp rest))
              (swap_blocks (pending b next) (pending b msp) (total rest)))
        | inr t ↦ rw t (Perm.refl _)
      ]

  pub ms_sort-total :
      (msp : MsStream) (l : List MsStream) → Perm (total (ms_sort msp l)) (pending b msp ++ total l)
  unfolding ms_sort total
  ms_sort-total msp [] = Perm.refl _
  ms_sort-total msp (next ∷ rest) = elim (Bool-cases (ltb (ms_peek_time msp) (ms_peek_time next))) [
    | inl t ↦ rw t (Perm.refl _)
    | inr t ↦ rw t (
        Perm.trans (Perm.append_left (pending b next) (sort_after-total msp rest))
          (swap_blocks (pending b next) (pending b msp) (total rest)))
  ]

  pub ms_resort-total :
      (msp : MsStream) (l : List MsStream)
      → Perm (total (ms_resort msp l)) (pending b msp ++ total l)
  unfolding ms_resort total
  ms_resort-total msp [] = Perm.refl _
  ms_resort-total msp (next ∷ rest) =
      elim (Bool-cases (ltb (ms_peek_time next) (ms_peek_time msp))) [
        | inl t ↦ rw t (ms_sort-total msp (next ∷ rest))
        | inr t ↦ rw t (Perm.refl _)
      ]
