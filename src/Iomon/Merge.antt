-- ===== src/Iomon/Merge.antt =====
-- Merging two summaries of stats.h, against one summary of all the values.
use blktrace.Common.{ℕ, ◌^◌, ◌<◌, ◌≡◌, refl, ap, ◌∙◌, List, [], ◌∷◌, arith}
use blktrace.Iomon.{Minmax, minmax_init, minmax_account, minmax_merge}

-- The values of a list, accounted one after the other.
unfoldable pub minmax_accounts : List ℕ → Minmax → Minmax
unfolding minmax_account
minmax_accounts [] mm = mm
minmax_accounts (v ∷ vs) mm = minmax_accounts vs (minmax_account mm v)

-- The counters hold values of 64 bits.
pub record InRange (mm : Minmax) : Type 0 where
  pub min : mm.min < 2 ^ 64
  pub sum : mm.sum < 2 ^ 64
  pub sos : mm.sos < 2 ^ 64
  pub num : mm.num < 2 ^ 64

accounts-InRange : (vs : List ℕ) (mm : Minmax) → InRange mm → InRange (minmax_accounts vs mm)
unfolding minmax_accounts minmax_account
accounts-InRange [] mm r = r
accounts-InRange (v ∷ vs) mm r = accounts-InRange vs _ (record {
  min = ground (arith, r.min);
  sum = omega arith;
  sos = omega arith;
  num = omega arith;
})

merge-account :
    (v : ℕ) (a b : Minmax)
    → minmax_merge a (minmax_account b v) ≡ minmax_account (minmax_merge a b) v
unfolding minmax_merge minmax_account
merge-account v a b = ground arith

merge-accounts :
    (vs : List ℕ) (a b : Minmax)
    → minmax_merge a (minmax_accounts vs b) ≡ minmax_accounts vs (minmax_merge a b)
unfolding minmax_accounts
merge-accounts [] a b = refl
merge-accounts (v ∷ vs) a b =
    merge-accounts vs a (minmax_account b v) ∙ ap (minmax_accounts vs) (merge-account v a b)

init-InRange : InRange minmax_init
unfolding minmax_init
init-InRange = record { min = omega arith; sum = omega arith; sos = omega arith; num = omega arith }

merge_init : (a : Minmax) → InRange a → minmax_merge a minmax_init ≡ a
unfolding minmax_merge minmax_init
merge_init a r = ground (arith, r.min, r.sum, r.sos, r.num)

-- Two summaries of values, each from minmax_init: merged, they are the summary of all the values, with
-- its minimum, maximum, sum, sum of squares and number.
pub minmax_merge-accounts :
    (us vs : List ℕ)
    → minmax_merge (minmax_accounts us minmax_init) (minmax_accounts vs minmax_init)
      ≡ minmax_accounts vs (minmax_accounts us minmax_init)
minmax_merge-accounts us vs =
    let a = minmax_accounts us minmax_init in
    merge-accounts vs a minmax_init
    ∙ ap (minmax_accounts vs) (merge_init a (accounts-InRange us minmax_init init-InRange))
