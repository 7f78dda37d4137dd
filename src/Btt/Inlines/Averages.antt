-- ===== src/Btt/Inlines/Averages.antt =====
-- What an average holds after any number of updates.
use blktrace.Common.{
  ℕ, suc, ◌+◌, ◌%◌, ◌^◌, ◌<◌, ◌≤◌, ◌≡◌, refl, ap, ◌∙◌, min, max, List, [], ◌∷◌, add64, length,
  arith,
}
use blktrace.Btt.Inlines.{AvgInfo, avg_update}

-- A list of updates, in order
unfoldable pub updates : AvgInfo → List ℕ → AvgInfo
unfolding avg_update
updates ap [] = ap
updates ap (t ∷ ts) = updates (avg_update ap t) ts

abbrev pub sum : List ℕ → ℕ
sum [] = 0
sum (t ∷ ts) = t + sum ts

-- The least and the greatest of a first value and a list
abbrev pub least : ℕ → List ℕ → ℕ
least t [] = t
least t (u ∷ us) = min t (least u us)

abbrev pub greatest : ℕ → List ℕ → ℕ
greatest t [] = t
greatest t (u ∷ us) = max t (greatest u us)

-- What an average with at least one value holds after more values
record Continued (ap out : AvgInfo) (ts : List ℕ) : Type 0 where
  count : out.n ≡ ap.n + length ts
  total : out.total ≡ (ap.total + sum ts) % 2 ^ 64
  low : out.min ≡ least ap.min ts
  high : out.max ≡ greatest ap.max ts

least_min : (a b : ℕ) (ts : List ℕ) → least (min a b) ts ≡ min a (least b ts)
least_min a b [] = refl
least_min a b (t ∷ ts) = omega arith

greatest_max : (a b : ℕ) (ts : List ℕ) → greatest (max a b) ts ≡ max a (greatest b ts)
greatest_max a b [] = refl
greatest_max a b (t ∷ ts) = omega arith

update_again :
    (ap : AvgInfo) (t : ℕ)
    → 0 < ap.n
    → ap.min ≤ ap.max
    → ((avg_update ap t).n ≡ ap.n + 1)
      × ((avg_update ap t).total ≡ add64 ap.total t)
      × ((avg_update ap t).min ≡ min ap.min t)
      × ((avg_update ap t).max ≡ max ap.max t)
unfolding avg_update
update_again ap t h o = ground (arith, h, o)

updates-Continued :
    (avg : AvgInfo) (ts : List ℕ)
    → 0 < avg.n
    → avg.min ≤ avg.max
    → avg.total < 2 ^ 64
    → Continued avg (updates avg ts) ts
unfolding updates
updates-Continued avg [] h o b = record {
  count = omega arith;
  total = omega (arith, b);
  low = refl;
  high = refl;
}
updates-Continued avg (t ∷ ts) h o b =
    let (count, total, low, high) = update_again avg t h o in
    let rest =
      updates-Continued (avg_update avg t) ts (omega (arith, count)) (omega (arith, low, high, o))
        (omega (arith, total)) in
    record {
      count = omega (arith, rest.count, count);
      total = omega (arith, rest.total, total);
      low = rest.low ∙ (ap_least low ∙ least_min avg.min t ts);
      high = rest.high ∙ (ap_greatest high ∙ greatest_max avg.max t ts);
    }
  where
    ap_least : {a c : ℕ} → a ≡ c → least a ts ≡ least c ts
    ap_least e = ap (λ k. least k ts) e

    ap_greatest : {a c : ℕ} → a ≡ c → greatest a ts ≡ greatest c ts
    ap_greatest e = ap (λ k. greatest k ts) e

-- From an average with no value, avg_update with the first value and any number of others, where the
-- first is a 64-bit one, gives their number, their sum modulo 2 ^ 64, the least and the greatest.
pub updates-totals :
    (avg : AvgInfo) (t : ℕ) (ts : List ℕ)
    → avg.n ≡ 0
    → t < 2 ^ 64
    → ((updates avg (t ∷ ts)).n ≡ suc (length ts))
      × ((updates avg (t ∷ ts)).total ≡ sum (t ∷ ts) % 2 ^ 64)
      × ((updates avg (t ∷ ts)).min ≡ least t ts)
      × ((updates avg (t ∷ ts)).max ≡ greatest t ts)
unfolding updates avg_update
updates-totals avg t ts z b =
    rw (z, updates, avg_update)
      (let c =
          updates-Continued (record { min = t; max = t; total = t; n = 1 }) ts (omega arith)
            (omega arith) b in
        (omega (arith, c.count), c.total, c.low, c.high))
