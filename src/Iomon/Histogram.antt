-- ===== src/Iomon/Histogram.antt =====
-- The histograms of stats.h: the bucket of a value, and merging.
use blktrace.Common.{
  ==_iff, ℕ, zero, suc, ◌+◌, ◌-◌, ◌^◌, ◌<◌, ◌≤◌, ◌≡◌, refl, ap, ap₂, ◌∙◌, subst, List, [], ◌∷◌,
  ◌==◌, ltb, add32, arith, length, length-set, get_or, set, replicate, ◌⊎◌, inl, inr, All,
  Bool-cases, ltb→lt,
}
use blktrace.Iomon.{
  Histlog2, histlog2_upper_limit, index_from, histlog2_index, histlog2_account, merge_buckets,
  histlog2_merge,
}

-- The bucket of a value: a bucket of the table, the limits of the buckets before it are below the
-- value, and its own limit is not, unless it is the last one.
pub record IsIndex (val : ℕ) (h : Histlog2) (from last i : ℕ) : Type 0 where
  pub above : from ≤ i
  pub bound : i ≤ last
  pub lower : (j : ℕ) → from ≤ j → j < i → histlog2_upper_limit j h < val
  pub upper : (i ≡ last) ⊎ (val ≤ histlog2_upper_limit i h)

index_from-IsIndex : (n i val : ℕ) (h : Histlog2) → IsIndex val h i (i + n) (index_from n i val h)
unfolding index_from
index_from-IsIndex zero i val h = record {
  above = omega arith;
  bound = omega arith;
  lower = λ j a b. absurd (omega (arith, a, b));
  upper = inl (omega arith);
}
index_from-IsIndex (suc n) i val h =
    let rest = index_from-IsIndex n (suc i) val h in
    elim (Bool-cases (ltb (histlog2_upper_limit i h) val)) [
      | inl e ↦
          rw (e, index_from)
            (record {
              above = omega (arith, rest.above);
              bound = omega (arith, rest.bound);
              lower = λ j a b. elim (Bool-cases (i == j)) [
                | inl k ↦
                    subst (λ m. histlog2_upper_limit m h < val) ((==_iff i j).0 k) (ltb→lt _ _ e)
                | inr k ↦ rest.lower j (ground (arith, k, a)) b
              ];
              upper = elim rest.upper [ inl l ↦ inl (omega (arith, l)) | inr u ↦ inr u ];
            })
      | inr e ↦
          rw (e, index_from)
            (record {
              above = omega arith;
              bound = omega arith;
              lower = λ j a b. absurd (omega (arith, a, b));
              upper = inr (ground (arith, e));
            })
    ]

-- The bucket of any value in any table of at least one bucket is in the table, and it is the first
-- one whose limit the value does not exceed, or else the last one.
pub histlog2_index-IsIndex :
    (val : ℕ) (h : Histlog2) → IsIndex val h 0 (h.num - 1) (histlog2_index val h)
unfolding histlog2_index
histlog2_index-IsIndex val h =
    subst (λ k. IsIndex val h 0 k (histlog2_index val h)) (omega arith)
      (index_from-IsIndex (h.num - 1) 0 val h)

merge_buckets-set :
    (n i : ℕ) (d s : List ℕ)
    → length d ≡ n
    → length s ≡ n
    → merge_buckets n d (set s i (add32 (get_or s i 0) 1))
      ≡ set (merge_buckets n d s) i (add32 (get_or (merge_buckets n d s) i 0) 1)
unfolding merge_buckets
merge_buckets-set zero i [] [] p q = refl
merge_buckets-set zero i [] (x ∷ s) p q = absurd (omega (arith, q))
merge_buckets-set zero i (x ∷ d) s p q = absurd (omega (arith, p))
merge_buckets-set (suc n) i [] s p q = absurd (omega (arith, p))
merge_buckets-set (suc n) i (x ∷ d) [] p q = absurd (omega (arith, q))
merge_buckets-set (suc n) zero (x ∷ d) (y ∷ s) p q = ap (λ k. k ∷ merge_buckets n d s) (omega arith)
merge_buckets-set (suc n) (suc i) (x ∷ d) (y ∷ s) p q =
    ap (λ k. add32 x y ∷ k) (merge_buckets-set n i d s (omega (arith, p)) (omega (arith, q)))

-- The values of a list, counted one after the other.
unfoldable pub histlog2_accounts : Histlog2 → List ℕ → List ℕ → List ℕ
unfolding histlog2_account
histlog2_accounts h [] bucket = bucket
histlog2_accounts h (v ∷ vs) bucket = histlog2_accounts h vs (histlog2_account bucket v h)

merge-histlog2_accounts :
    (h : Histlog2) (vs d s : List ℕ)
    → length d ≡ h.num
    → length s ≡ h.num
    → histlog2_merge h d (histlog2_accounts h vs s) ≡ histlog2_accounts h vs (histlog2_merge h d s)
unfolding histlog2_accounts histlog2_merge histlog2_account
merge-histlog2_accounts h [] d s p q = refl
merge-histlog2_accounts h (v ∷ vs) d s p q =
    merge-histlog2_accounts h vs d _ p (length-set s _ _ ∙ q)
    ∙ ap (histlog2_accounts h vs) (merge_buckets-set h.num (histlog2_index v h) d s p q)

merge_buckets_zero :
    (n : ℕ) (d : List ℕ)
    → All (λ x. x < 2 ^ 32) d
    → length d ≡ n
    → merge_buckets n d (replicate n 0) ≡ d
unfolding merge_buckets
merge_buckets_zero zero d r p = refl
merge_buckets_zero (suc n) [] r p = refl
merge_buckets_zero (suc n) (x ∷ d) r p =
    ap₂ (λ a b. a ∷ b) (omega (arith, r.0)) (merge_buckets_zero n d r.1 (omega (arith, p)))

-- A histogram of any counts, merged with the histogram of a list of values that started from zero,
-- is the first histogram with the values counted in it; for any table, its number of counts in each
-- histogram, and counts of 32 bits.
pub histlog2_merge-histlog2_accounts :
    (h : Histlog2) (vs d : List ℕ)
    → length d ≡ h.num
    → All (λ x. x < 2 ^ 32) d
    → histlog2_merge h d (histlog2_accounts h vs (replicate h.num 0)) ≡ histlog2_accounts h vs d
unfolding histlog2_merge
histlog2_merge-histlog2_accounts h vs d p r =
    merge-histlog2_accounts h vs d (replicate h.num 0) p (length-replicate h.num)
    ∙ ap (histlog2_accounts h vs) (merge_buckets_zero h.num d r p)
  where
    length-replicate : (n : ℕ) → length {A = ℕ} (replicate n 0) ≡ n
    length-replicate zero = refl
    length-replicate (suc n) = ap suc (length-replicate n)
