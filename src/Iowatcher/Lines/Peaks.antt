-- ===== src/Iowatcher/Lines/Peaks.antt =====
-- One entry added to a line graph: the sums by second, and the maximum.
use blktrace.Common.{
  ℕ, ◌+◌, ◌≤◌, ◌<◌, ◌^◌, ◌≡◌, ◌≢◌, ◌⊎◌, refl, sym, none, some, if◌then◌else◌, ◌==◌, ltb, get_elem?,
  set, get_elem?-set_self, get_elem?-set_ne, get_elem?_lt, add64, Bool-cases, Option-cases, inl,
  inr, arith,
}
use mathlib.Core.Option
use blktrace.Iowatcher.Lines.{GraphLinePair, GraphLineData, add_at, add_one, sum_of}

-- The sum that a graph has for a second
unfoldable pub sum_at : GraphLineData → ℕ → ℕ
sum_at gld j = elim (get_elem? gld.pairs j) [ none ↦ 0 | some p ↦ p.sum ]

-- A record of the second i adds n to a graph, or no record adds anything.
abbrev pub Added : ℕ → ℕ → GraphLineData → GraphLineData → Type 0
Added i n gld gld' = ((n ≡ 0) × (gld' ≡ gld)) ⊎ (add_at i (add_one n) sum_of gld ≡ some gld')

-- The maximum is the sum of some second, or 0, and no sum is above it.
pub record Peak (gld : GraphLineData) : Type 0 where
  pub above : (j : ℕ) → sum_at gld j ≤ gld.max
  pub met : (gld.max ≡ 0) ⊎ ((j : ℕ) × (gld.max ≡ sum_at gld j))

module _ (i n : ℕ) (gld gld' : GraphLineData) (e : add_at i (add_one n) sum_of gld ≡ some gld')
    (small : sum_at gld i + n < 2 ^ 64) where
  added_entry :
      (p : GraphLinePair) × (get_elem? gld.pairs i ≡ some p)
      × (gld' ≡ record {
        max = if ltb gld.max (p.sum + n) then p.sum + n else gld.max;
        pairs = set gld.pairs i (record { count = 1; sum = p.sum + n });
      })
  unfolding add_at add_one sum_at
  added_entry = elim (Option-cases (get_elem? gld.pairs i)) [
    | inl f ↦ let bad : none ≡ some gld' = rw (f, add_at) at e in cc
    | inr (p, f) ↦
        let k : p.sum + n < 2 ^ 64 = rw (sum_at, f) at small in
        let wrap : add64 p.sum n ≡ p.sum + n = omega (arith, k) in
        let d = rw (f, add_at, wrap) at e in (p, f, sym (Option.some-injective _ _ d))
  ]

  pub add_at-sum_at : (j : ℕ) → sum_at gld' j ≡ (if j == i then sum_at gld i + n else sum_at gld j)
  unfolding sum_at
  add_at-sum_at j =
      let (p, f, d) = added_entry in
      rw d (elim (Bool-cases (j == i)) [
        | inl h ↦
            let here : j ≡ i = ground (arith, h) in
            rw
              (
                h,
                here,
                sum_at,
                get_elem?-set_self gld.pairs i (record { count = 1; sum = p.sum + n })
                    (get_elem?_lt gld.pairs i f),
                f,
              )
              refl
        | inr h ↦
            let there : i ≢ j = ground (arith, h) in
            rw (h, sum_at, get_elem?-set_ne gld.pairs (record { count = 1; sum = p.sum + n }) there)
              refl
      ])

  pub add_at-Peak : Peak gld → Peak gld'
  unfolding sum_at
  add_at-Peak k =
      let (p, f, d) = added_entry in
      let top : gld'.max ≡ (if ltb gld.max (sum_at gld i + n) then sum_at gld i + n else gld.max) =
        rw (d, sum_at, f) refl in
      let now = add_at-sum_at i in
      record {
        above = λ j. ground (arith, add_at-sum_at j, k.above j, top);
        met = elim (Bool-cases (ltb gld.max (sum_at gld i + n))) [
          | inl h ↦ inr (i, ground (arith, h, top, now))
          | inr h ↦ elim k.met [
            | inl z ↦ inl (ground (arith, h, top, z))
            | inr (j, m) ↦ inr (j, ground (arith, h, top, m, add_at-sum_at j))
          ]
        ];
      }
