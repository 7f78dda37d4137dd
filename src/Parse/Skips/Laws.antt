-- ===== src/Parse/Skips/Laws.antt =====
-- A skip list holds the numbers that were inserted, each as often, less those that came in.
use blktrace.Common.{
  ℕ, ◌+◌, ◌-◌, ◌^◌, ◌<◌, ◌≤◌, ◌≡◌, refl, Bool, true, false, ◌&&◌, Option, none, some, List, [], ◌∷◌,
  if◌then◌else◌, ◌==◌, leb, arith, Bool-cases, Option-cases, subst, inl, inr,
}
use mathlib.Core.Option.{some-injective}
use blktrace.Parse.Skips.{
  SkipInfo, extend_skip, extend_skips, or_walk, insert_skip, in_skip, Walk, missing, finished,
  cut_short, after_entry, hit_skip, walk_skips, end_walk, check_current_skips, collect_skips,
}

-- How many entries hold a number.
pub cover : ℕ → List SkipInfo → ℕ
cover n [] = 0
cover n (sip ∷ rest) = (if in_skip sip n then 1 else 0) + cover n rest

-- Every entry is a range of numbers below 2 ^ 32, as sequence numbers are.
abbrev pub Ranges : List SkipInfo → Type 0
Ranges [] = Unit {0}
Ranges (sip ∷ rest) = (sip.start ≤ sip.end) × (sip.end < 2 ^ 32) × Ranges rest

abbrev one_if : Bool → ℕ
one_if b = if b then 1 else 0

abbrev within : ℕ → ℕ → ℕ → ℕ
within start end n = one_if (leb start n && leb n end)

extend_skip-cover :
    (sip : SkipInfo) (start end n : ℕ) {new : SkipInfo}
    → extend_skip sip start end ≡ some new
    → start ≤ end
    → end < 2 ^ 32
    → sip.start ≤ sip.end
    → sip.end < 2 ^ 32
    → one_if (in_skip new n) ≡ one_if (in_skip sip n) + within start end n
unfolding extend_skip in_skip
extend_skip-cover sip start end n h a b c d = ground arith

extend_skip-range :
    (sip : SkipInfo) (start end : ℕ) {new : SkipInfo}
    → extend_skip sip start end ≡ some new
    → start ≤ end
    → end < 2 ^ 32
    → sip.start ≤ sip.end
    → sip.end < 2 ^ 32
    → (new.start ≤ new.end) × (new.end < 2 ^ 32)
unfolding extend_skip
extend_skip-range sip start end h a b c d = ground arith

module _ (start end : ℕ) (le : start ≤ end) (lt : end < 2 ^ 32) where
  -- A list to which the range was added.
  abbrev Added : List SkipInfo → List SkipInfo → Type 0
  Added skips l = Ranges l × ((n : ℕ) → cover n l ≡ cover n skips + within start end n)

  extend_skips-Added :
      (skips : List SkipInfo) {l : List SkipInfo}
      → Ranges skips
      → extend_skips skips start end ≡ some l
      → Added skips l
  unfolding extend_skips cover
  extend_skips-Added [] r e = cc
  extend_skips-Added (sip ∷ rest) {l} r e =
      entry (λ k q. extend_skips-Added rest {l = k} r.2 q) (extend_skip sip start end) refl
        (extend_skips rest start end) refl e
    where
      entry :
          ((k : List SkipInfo) → extend_skips rest start end ≡ some k → Added rest k)
          → (o : Option SkipInfo) → extend_skip sip start end ≡ o
          → (w : Option (List SkipInfo)) → extend_skips rest start end ≡ w
          → or_walk o sip rest w ≡ some l
          → Added (sip ∷ rest) l
      entry ih (some new) p w q e =
          let b = extend_skip-range sip start end p le lt r.0 r.1 in
          subst (Added (sip ∷ rest)) (some-injective (new ∷ rest) l e)
            ((b.0, b.1, r.2), λ n. omega (arith, extend_skip-cover sip start end n p le lt r.0 r.1))
      entry ih none p none q e = cc
      entry ih none p (some k) q e =
          let a = ih k q in
          subst (Added (sip ∷ rest)) (some-injective (sip ∷ k) l e)
            ((r.0, r.1, a.0), λ n. omega (arith, a.1 n))

  insert_skip-Added :
      (skips : List SkipInfo) → Ranges skips → Added skips (insert_skip skips start end)
  unfolding insert_skip cover in_skip
  insert_skip-Added skips r = elim (Option-cases (extend_skips skips start end)) [
    | inl e ↦ rw (e, insert_skip) ((le, lt, r), λ n. omega arith)
    | inr (l, e) ↦ rw (e, insert_skip) (extend_skips-Added skips r e)
  ]

-- The walk of check_current_skips at a number that no entry holds strictly inside.
abbrev Inside : ℕ → SkipInfo → Type 0
Inside seq sip = (sip.start < seq) × (seq < sip.end)

abbrev pub NeverInside : ℕ → List SkipInfo → Type 0
NeverInside seq [] = Unit {0}
NeverInside seq (sip ∷ rest) = ¬ Inside seq sip × NeverInside seq rest

-- What a walk is to do to the cover of every number.
abbrev Taken : ℕ → List SkipInfo → Walk → Type 0
Taken seq skips missing = cover seq skips ≡ 0
Taken seq skips (finished l) = Ranges l × ((n : ℕ) → cover n l + within seq seq n ≡ cover n skips)
Taken seq skips (cut_short l) = ⊥

hit_skip-Taken :
    (sip : SkipInfo) (rest : List SkipInfo) (seq : ℕ)
    → Ranges (sip ∷ rest)
    → ¬ Inside seq sip
    → in_skip sip seq ≡ true
    → Taken seq (sip ∷ rest) (hit_skip sip rest seq)
unfolding hit_skip cover in_skip
hit_skip-Taken sip rest seq r out hit = elim (Bool-cases (sip.start == seq)) [
  | inl p ↦ elim (Bool-cases (sip.end == seq)) [
    | inl q ↦ rw (p, q) (r.2, λ n. ground arith)
    | inr q ↦ rw (p, q) ((ground arith, ground arith, r.2), λ n. ground arith)
  ]
  | inr p ↦ elim (Bool-cases (sip.end == seq)) [
    | inl q ↦ rw (p, q) ((ground arith, ground arith, r.2), λ n. ground arith)
    | inr q ↦ absurd (out (ground arith))
  ]
]

after_entry-Taken :
    (sip : SkipInfo) (rest : List SkipInfo) (seq : ℕ) (w : Walk)
    → Ranges (sip ∷ rest)
    → in_skip sip seq ≡ false
    → Taken seq rest w
    → Taken seq (sip ∷ rest) (after_entry sip w)
unfolding cover
after_entry-Taken sip rest seq missing r out t = rw out (omega (arith, t))
after_entry-Taken sip rest seq (finished l) r out t = ((r.0, r.1, t.0), λ n. omega (arith, t.1 n))
after_entry-Taken sip rest seq (cut_short l) r out t = t

walk_skips-Taken :
    (skips : List SkipInfo) (seq : ℕ)
    → Ranges skips
    → NeverInside seq skips
    → Taken seq skips (walk_skips skips seq)
unfolding walk_skips cover
walk_skips-Taken [] seq r out = refl
walk_skips-Taken (sip ∷ rest) seq r out = elim (Bool-cases (in_skip sip seq)) [
  | inl hit ↦ rw hit (hit_skip-Taken sip rest seq r out.0 hit)
  | inr miss ↦ rw miss (
      after_entry-Taken sip rest seq (walk_skips rest seq) r miss
        (walk_skips-Taken rest seq r.2 out.1))
]

taken-pos :
    (seq : ℕ) (skips l : List SkipInfo)
    → ((n : ℕ) → cover n l + within seq seq n ≡ cover n skips)
    → 0 < cover seq skips
taken-pos seq skips l h = ground (arith, h seq)

-- What check_current_skips(pci, seq) is to do to the skips: `true` exactly if an entry holds the
-- number, and then it is held once less; no other number is held more or less often.
abbrev pub Removes : ℕ → List SkipInfo → Bool × List SkipInfo → Type 0
Removes seq skips (true, l) =
    (0 < cover seq skips) × Ranges l × ((n : ℕ) → cover n l + within seq seq n ≡ cover n skips)
Removes seq skips (false, l) = (cover seq skips ≡ 0) × (l ≡ skips)

end_walk-Removes :
    (seq : ℕ) (skips : List SkipInfo) (w : Walk)
    → Taken seq skips w
    → Removes seq skips (end_walk skips seq w)
unfolding end_walk
end_walk-Removes seq skips missing t = (t, refl)
end_walk-Removes seq skips (finished l) t = (taken-pos seq skips l t.1, t.0, t.1)
end_walk-Removes seq skips (cut_short l) t = absurd t

-- insert_skip(pci, start, end), for a range of 32-bit numbers, in a list of such ranges: each
-- number of the range is held once more by the entries, every other number as often as before, and
-- the entries stay such ranges. This holds whether an entry was extended or a new one made.
pub cover-insert_skip :
    (skips : List SkipInfo) (start end : ℕ)
    → Ranges skips
    → start ≤ end
    → end < 2 ^ 32
    → Ranges (insert_skip skips start end)
      × ((n : ℕ)
          → cover n (insert_skip skips start end)
            ≡ cover n skips + (if leb start n && leb n end then 1 else 0))
cover-insert_skip skips start end r le lt = insert_skip-Added start end le lt skips r

-- check_current_skips(pci, seq), if no entry holds seq strictly between its ends: it finds seq
-- exactly if an entry holds it, and then takes seq, and no other number, out of one entry.
pub check_current_skips-Removes :
    (skips : List SkipInfo) (seq : ℕ)
    → Ranges skips
    → NeverInside seq skips
    → Removes seq skips (check_current_skips skips seq)
unfolding check_current_skips
check_current_skips-Removes skips seq r out =
    end_walk-Removes seq skips (walk_skips skips seq) (walk_skips-Taken skips seq r out)

-- The numbers above seq are lost when seq lies strictly inside the only entry: the second half of
-- the range, from seq + 1 to the old end, should stay skipped, and no entry holds any of it.
pub check_current_skips_loses :
    (start seq end n : ℕ)
    → start < seq
    → seq < end
    → end < 2 ^ 32
    → seq < n
    → cover n (check_current_skips (record { start = start; end = end } ∷ []) seq).1 ≡ 0
unfolding check_current_skips insert_skip in_skip cover
check_current_skips_loses start seq end n a b c d = ground arith

-- In that case the device's count of skipped numbers is also short by the whole second half, and
-- by one more, since the entry made for it is counted as 2 ^ 64 - 1 numbers.
pub collect_skips_loses :
    (start seq end : ℕ)
    → start < seq
    → seq < end
    → end < 2 ^ 32
    → collect_skips (0, 0) (check_current_skips (record { start = start; end = end } ∷ []) seq).1
      ≡ (2, seq - start - 1)
unfolding check_current_skips insert_skip in_skip collect_skips
collect_skips_loses start seq end a b c = ground arith
