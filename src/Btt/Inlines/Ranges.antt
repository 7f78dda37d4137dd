-- ===== src/Btt/Inlines/Ranges.antt =====
-- The ranges of activity hold every time of a sequence that does not go back.
use blktrace.Common.{
  ℕ, ◌-◌, ◌≤◌, ◌≡◌, Bool, true, false, ◌&&◌, ◌||◌, List, [], ◌∷◌, leb, ltb, Bool-cases, inl, inr,
  All, arith,
}
use blktrace.Btt.Inlines.{RangeInfo, update_range}

-- Each range is one, and does not start before an earlier one has ended; the last range is the first.
abbrev pub InOrder : List RangeInfo → Type 0
InOrder [] = Unit {0}
InOrder (r ∷ rs) = (r.start ≤ r.end) × All (λ s. s.end ≤ r.start) rs × InOrder rs

-- No range ends after the time.
abbrev pub Past : ℕ → List RangeInfo → Type 0
Past time = All (λ r. r.end ≤ time)

unfoldable pub holds : ℕ → List RangeInfo → Bool
holds t [] = false
holds t (r ∷ rs) = (leb r.start t && leb t r.end) || holds t rs

unfoldable pub ranges_of : (ℕ → Bool) → List RangeInfo → List ℕ → List RangeInfo
unfolding update_range
ranges_of near ranges [] = ranges
ranges_of near ranges (t ∷ ts) = ranges_of near (update_range near ranges t) ts

abbrev pub Ascending : ℕ → List ℕ → Type 0
Ascending last [] = Unit {0}
Ascending last (t ∷ ts) = (last ≤ t) × Ascending t ts

-- What an update with a time that is not before the ranges leaves
record Extended (time : ℕ) (before after : List RangeInfo) : Type 0 where
  ordered : InOrder after
  past : Past time after
  new : holds time after ≡ true
  old : (t : ℕ) → holds t before ≡ true → holds t after ≡ true

All-later : (a b : ℕ) (l : List RangeInfo) → a ≤ b → Past a l → Past b l
All-later a b [] h p = tt
All-later a b (r ∷ l) h p = (omega (arith, p.0, h), All-later a b l h p.1)

update_range-Extended :
    (near : ℕ → Bool) (ranges : List RangeInfo) (time : ℕ)
    → InOrder ranges
    → Past time ranges
    → Extended time ranges (update_range near ranges time)
unfolding update_range holds
update_range-Extended near [] time o p = record {
  ordered = (omega arith, tt, tt);
  past = (omega arith, tt);
  new = ground arith;
  old = λ t h. absurd (cc);
}
update_range-Extended near (r ∷ rs) time o p =
    let late : ltb time r.end ≡ false = ground (arith, p.0) in
    elim (Bool-cases (near (time - r.end))) [
      | inl n ↦
          rw (late, n, update_range)
            (record {
              ordered = (omega (arith, o.0, p.0), o.1, o.2);
              past = (omega arith, p.1);
              new = ground (arith, o.0, p.0);
              old = λ t h. stretched t (holds t rs) h;
            })
      | inr n ↦
          rw (late, n, update_range)
            (record {
              ordered = (omega arith, p, o);
              past = (omega arith, p);
              new = ground arith;
              old = λ t h. ground (arith, h);
            })
    ]
  where
    stretched :
        (t : ℕ) (c : Bool)
        → ((leb r.start t && leb t r.end) || c) ≡ true
        → ((leb r.start t && leb t time) || c) ≡ true
    stretched t c h = ground (arith, h, p.0)

-- What a sequence of updates leaves
record Covered (before after : List RangeInfo) (ts : List ℕ) : Type 0 where
  ordered : InOrder after
  all : All (λ t. holds t after ≡ true) ts
  old : (t : ℕ) → holds t before ≡ true → holds t after ≡ true

ranges_of-Covered :
    (near : ℕ → Bool) (ranges : List RangeInfo) (last : ℕ) (ts : List ℕ)
    → InOrder ranges
    → Past last ranges
    → Ascending last ts
    → Covered ranges (ranges_of near ranges ts) ts
unfolding ranges_of
ranges_of-Covered near ranges last [] o p a = record { ordered = o; all = tt; old = λ t h. h }
ranges_of-Covered near ranges last (t ∷ ts) o p a =
    let one = update_range-Extended near ranges t o (All-later last t ranges a.0 p) in
    let rest = ranges_of-Covered near (update_range near ranges t) t ts one.ordered one.past a.1 in
    record {
      ordered = rest.ordered;
      all = (rest.old t one.new, rest.all);
      old = λ u h. rest.old u (one.old u h);
    }

-- From an empty list on, update_range with times that do not go back, whatever the comparison of
-- differences is, gives ranges that follow each other in time and hold every one of the times.
pub ranges_of-InOrder :
    (near : ℕ → Bool) (ts : List ℕ)
    → Ascending 0 ts
    → InOrder (ranges_of near [] ts) × All (λ t. holds t (ranges_of near [] ts) ≡ true) ts
ranges_of-InOrder near ts a = let c = ranges_of-Covered near [] 0 ts tt tt a in (c.ordered, c.all)
