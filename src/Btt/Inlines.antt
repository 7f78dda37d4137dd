-- ===== src/Btt/Inlines.antt =====
-- btt/inlines.h and btt/globals.h: averages, ranges of activity, and histograms.
pub mod Averages
pub mod Ranges
use blktrace.Common.{
  ℕ, ◌+◌, ◌-◌, ◌*◌, ◌/◌, ◌%◌, ◌^◌, Bool, ◌||◌, List, [], ◌∷◌, if◌then◌else◌, ◌==◌, ltb, add64,
  sub64, max64,
}
use blktrace.Trace.Header.{major}

unfoldable pub remapper_dev : ℕ → Bool
remapper_dev dev = major dev == 9 || major dev == 253 || major dev == 254

-- struct avg_info, without the quotient `avg`; `n` is an int that does not overflow.
pub record AvgInfo : Type 0 where
  pub min : ℕ
  pub max : ℕ
  pub total : ℕ
  pub n : ℕ

unfoldable pub avg_update : AvgInfo → ℕ → AvgInfo
avg_update ap t = if ap.n == 0 then record { min = t; max = t; total = t; n = 1 } else record {
  min = if ltb t ap.min then t else ap.min;
  max = if ltb t ap.min then ap.max else if ltb ap.max t then t else ap.max;
  total = add64 ap.total t;
  n = ap.n + 1;
}

unfoldable pub avg_update_n : AvgInfo → ℕ → ℕ → AvgInfo
avg_update_n ap t n =
    if ap.n == 0
    then record { min = t; max = t; total = n * t % 2 ^ 64; n = ap.n + n }
    else record {
      min = if ltb t ap.min then t else ap.min;
      max = if ltb t ap.min then ap.max else if ltb ap.max t then t else ap.max;
      total = add64 ap.total (n * t);
      n = ap.n + n;
    }

-- avg_unupdate, where there is a value
unfoldable pub avg_unupdate : AvgInfo → ℕ → AvgInfo
avg_unupdate ap t = record ap { n = ap.n - 1; total = sub64 ap.total t }

-- update_lq, on *last_q and the average
unfoldable pub update_lq : ℕ × AvgInfo → ℕ → ℕ × AvgInfo
unfolding avg_update
update_lq (last_q, avg) time = (
  time,
  if last_q == max64 then avg else avg_update avg (if ltb last_q time then time - last_q else 1),
)

unfoldable pub tdelta : ℕ → ℕ → ℕ
tdelta from to = if ltb from to then to - from else 1

-- struct range_info
pub record RangeInfo : Type 0 where
  pub start : ℕ
  pub end : ℕ

-- update_range on the list with the last range first; `near` is the comparison of a difference of times
-- with range_delta, which are doubles.
unfoldable pub update_range : (ℕ → Bool) → List RangeInfo → ℕ → List RangeInfo
update_range near [] time = record { start = time; end = time } ∷ []
update_range near (rip ∷ ranges) time =
    if ltb time rip.end
    then rip ∷ ranges
    else if near (time - rip.end)
    then record rip { end = time } ∷ ranges
    else record { start = time; end = time } ∷ rip ∷ ranges
