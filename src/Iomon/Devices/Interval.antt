-- ===== src/Iomon/Devices/Interval.antt =====
-- What blkiomon puts out for an interval, against the requests that completed in it.
use blktrace.Common.{
  ℕ, ◌≡◌, refl, ap, sym, ◌∙◌, Bool, true, false, Option, none, some, List, [], ◌∷◌, ◌++◌,
  append-nil, if◌then◌else◌, ◌==◌, Bool-cases, Option-cases, inl, inr, subst, arith,
}
use mathlib.Core.Option
use blktrace.Trace.Record.{BlkIoTrace}
use blktrace.Parse.RbTree.{RbOps, to_list}
use blktrace.Iomon.{BlkiomonStat, blkiomon_account}
use blktrace.Iomon.Devices.{
  Dstats, no_dstats, find_dstat, account_dstat, output_dstats, blkiomon_interval,
}
use blktrace.Iomon.Devices.Accounts.{
  IsValid, listed, held, table, stat_or_init, Accounted, account_dstat-Accounted,
}

-- The D and C traces of the requests of an interval, accounted one after the other
unfoldable pub account_dstats : RbOps → List (BlkIoTrace × BlkIoTrace) → Dstats → Option Dstats
account_dstats ops [] g = some g
account_dstats ops ((d, c) ∷ l) g = Option.bind (account_dstat ops d c g) (account_dstats ops l)

-- The accounting of the requests of one device
unfoldable pub account_device :
    ℕ → List (BlkIoTrace × BlkIoTrace) → Option BlkiomonStat → Option BlkiomonStat
account_device device [] p = p
account_device device ((d, c) ∷ l) p =
    if device == d.device
    then account_device device l (blkiomon_account d c (stat_or_init device p))
    else account_device device l p

pub empty-IsValid : IsValid no_dstats
unfolding find_dstat to_list
empty-IsValid = record { sorted = tt; own = λ d s e. cc; once = λ d. refl }

pub record Interval (l : List (BlkIoTrace × BlkIoTrace)) (g g' : Dstats) : Type 0 where
  pub valid : IsValid g'
  pub entries : (device : ℕ) → table g' device ≡ account_device device l (table g device)

-- One entry of a table changed by the accounting of d and c
step-entry :
    (d c : BlkIoTrace) (l : List (BlkIoTrace × BlkIoTrace)) (s t : ℕ → Option BlkiomonStat)
    (p : BlkiomonStat)
    → blkiomon_account d c (stat_or_init d.device (s d.device)) ≡ some p
    → (device : ℕ) → t device ≡ (if device == d.device then some p else s device)
    → account_device device l (t device) ≡ account_device device ((d, c) ∷ l) (s device)
unfolding account_device
step-entry d c l s t p e device f = elim (Bool-cases (device == d.device)) [
  | inl h ↦
      let same : d.device ≡ device = ground (arith, h) in
      rw h (
        ap (account_device device l) (
          (f ∙ (rw h refl))
          ∙ sym (subst (λ n. blkiomon_account d c (stat_or_init n (s n)) ≡ some p) same e)))
  | inr h ↦ rw h (ap (account_device device l) (f ∙ (rw h refl)))
]

accounts-Interval :
    (ops : RbOps) (l : List (BlkIoTrace × BlkIoTrace)) (g g' : Dstats)
    → IsValid g
    → account_dstats ops l g ≡ some g'
    → Interval l g g'
unfolding account_dstats account_device Option.bind
accounts-Interval ops [] g g' v e =
    subst (Interval [] g) (Option.some-injective _ _ e) (record { valid = v; entries = λ d. refl })
accounts-Interval ops ((d, c) ∷ l) g g' v e = elim (Option-cases (account_dstat ops d c g)) [
  | inl f ↦ let bad : none ≡ some g' = rw f at e in cc
  | inr (h, f) ↦
      let one = subst (Accounted d c g) f (account_dstat-Accounted ops d c g v) in
      let rest = accounts-Interval ops l h g' one.0 (rw f at e) in
      record {
        valid = rest.valid;
        entries = λ device.
            rest.entries device
            ∙ step-entry d c l (table g) (table h) one.1.0 one.1.1 device (one.1.2 device);
      }
]

-- Does the list of statistics hold those of the device, and how often?
unfoldable pub stats_for : ℕ → List BlkiomonStat → List BlkiomonStat
stats_for device [] = []
stats_for device (s ∷ l) = if device == s.device then s ∷ stats_for device l else stats_for device l

-- What is put out of the statistics of a device
unfoldable pub stamped : ℕ → Option BlkiomonStat → List BlkiomonStat
stamped tv_sec none = []
stamped tv_sec (some s) = record s { time = tv_sec } ∷ []

if-cons :
    (b : Bool) (s : BlkiomonStat) (k : List BlkiomonStat)
    → (if b then s ∷ k else k) ≡ (if b then s ∷ [] else []) ++ k
if-cons true s k = refl
if-cons false s k = refl

module _ (tv_sec : ℕ) (g : Dstats) (v : IsValid g) (device : ℕ) where
  output-cons :
      (d : ℕ) (l : List ℕ)
      → stats_for device (output_dstats tv_sec (d ∷ l) g.dstat_tree)
        ≡ (if device == d then stamped tv_sec (find_dstat d g.dstat_tree) else [])
          ++ stats_for device (output_dstats tv_sec l g.dstat_tree)
  unfolding output_dstats stats_for stamped
  output-cons d l = elim (Option-cases (find_dstat d g.dstat_tree)) [
    | inl e ↦ rw (e, output_dstats, stamped) (ground arith)
    | inr (s, e) ↦
        let own : (device == s.device) ≡ (device == d) = ap (λ n. device == n) (v.own d s e) in
        rw (e, output_dstats, stamped, stats_for) (rw own (if-cons (device == d) _ _))
  ]

  output-unlisted :
      (l : List ℕ)
      → listed device l ≡ 0
      → stats_for device (output_dstats tv_sec l g.dstat_tree) ≡ []
  unfolding output_dstats stats_for
  output-unlisted [] h = refl
  output-unlisted (d ∷ l) h =
      let other : device == d ≡ false = ground (arith, h) in
      output-cons d l ∙ (rw other (output-unlisted l (omega (arith, h))))

  output-listed :
      (l : List ℕ)
      → listed device l ≡ 1
      → stats_for device (output_dstats tv_sec l g.dstat_tree)
        ≡ stamped tv_sec (find_dstat device g.dstat_tree)
  unfolding stamped
  output-listed [] h = absurd (omega (arith, h))
  output-listed (d ∷ l) h = elim (Bool-cases (device == d)) [
    | inl k ↦
        let same : d ≡ device = ground (arith, k) in
        let rest = output-unlisted l (ground (arith, h, k)) in
        output-cons d l
        ∙ (rw (k, rest, append-nil) (ap (λ n. stamped tv_sec (find_dstat n g.dstat_tree)) same))
    | inr k ↦ output-cons d l ∙ (rw k (output-listed l (ground (arith, h, k))))
  ]

  output-stamped :
      stats_for device (output_dstats tv_sec g.dstat_list g.dstat_tree)
      ≡ stamped tv_sec (table g device)
  unfolding table stamped
  output-stamped = elim (Option-cases (find_dstat device g.dstat_tree)) [
    | inl e ↦ rw e (output-unlisted g.dstat_list (v.once device ∙ ap held e))
    | inr (s, e) ↦ output-listed g.dstat_list (v.once device ∙ ap held e)
  ]

-- The requests of an interval are accounted, from no statistics, and the interval ends: for each device that had
-- requests, its statistics are put out once, with the time of the wake-up, and they are what the accounting of the
-- requests of that device alone gives. No other statistics are put out.
pub blkiomon_interval-account :
    (ops : RbOps) (l : List (BlkIoTrace × BlkIoTrace)) (tv_sec : ℕ) (done other : Dstats)
    → account_dstats ops l no_dstats ≡ some done
    → (device : ℕ)
    → stats_for device (blkiomon_interval tv_sec (record { current = done; other = other })).0
      ≡ stamped tv_sec (account_device device l none)
unfolding blkiomon_interval table find_dstat
blkiomon_interval-account ops l tv_sec done other e device =
    let over = accounts-Interval ops l no_dstats done empty-IsValid e in
    output-stamped tv_sec done over.valid device ∙ ap (stamped tv_sec) (over.entries device)
