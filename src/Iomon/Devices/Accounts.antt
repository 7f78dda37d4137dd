-- ===== src/Iomon/Devices/Accounts.antt =====
-- blkiomon_account against a table from devices to statistics.
use blktrace.Common.{
  ℕ, ◌+◌, ◌≡◌, refl, sym, ◌∙◌, Option, none, some, List, [], ◌∷◌, if◌then◌else◌, ◌==◌, Option-cases,
  inl, inr, subst, arith,
}
use blktrace.Trace.Record.{BlkIoTrace}
use blktrace.Parse.RbTree.{Tree, RbOps, to_list, link, link_place}
use blktrace.Iomon.{BlkiomonStat, blkiomon_stat_init, blkiomon_account}
use blktrace.Iomon.Devices.{Dstats, find_dstat, goes_before, get_dstat, put_dstat, account_dstat}
use blktrace.Iomon.Devices.Lookup.{
  Descending, find_dstat-order, find_dstat-put_dstat, find_dstat-link, link-Descending,
  put_dstat-Descending,
}

-- How often the device stands in dstat_list
abbrev pub listed : ℕ → List ℕ → ℕ
listed device [] = 0
listed device (d ∷ l) = (if device == d then 1 else 0) + listed device l

abbrev pub held : Option BlkiomonStat → ℕ
held none = 0
held (some s) = 1

-- The tree goes by the devices, a statistic is found under its device, and the list holds each device of the tree once.
pub record IsValid (g : Dstats) : Type 0 where
  pub sorted : Descending (to_list g.dstat_tree)
  pub own :
      (device : ℕ) (s : BlkiomonStat) → find_dstat device g.dstat_tree ≡ some s → s.device ≡ device
  pub once : (device : ℕ) → listed device g.dstat_list ≡ held (find_dstat device g.dstat_tree)

-- The statistics of a device, fresh where it has none yet
abbrev pub stat_or_init : ℕ → Option BlkiomonStat → BlkiomonStat
stat_or_init device none = record blkiomon_stat_init { device = device }
stat_or_init device (some s) = s

-- The table of a side
unfoldable pub table : Dstats → ℕ → Option BlkiomonStat
table g device = find_dstat device g.dstat_tree

blkiomon_account-device :
    (d c : BlkIoTrace) (p p' : BlkiomonStat)
    → blkiomon_account d c p ≡ some p'
    → p'.device ≡ p.device
unfolding blkiomon_account
blkiomon_account-device d c p p' e = ground (arith, e)

-- What blkiomon_get_dstat returns is the table's entry or a fresh one, and the table has it.
record Gotten (device : ℕ) (g : Dstats) (out : BlkiomonStat × Dstats) : Type 0 where
  stat : out.0 ≡ stat_or_init device (table g device)
  valid : IsValid out.1
  entry : (d : ℕ) → table out.1 d ≡ (if d == device then some out.0 else table g d)

get_dstat-found :
    (ops : RbOps) (device : ℕ) (g : Dstats) (s : BlkiomonStat)
    → IsValid g
    → find_dstat device g.dstat_tree ≡ some s
    → Gotten device g (get_dstat ops device g)
unfolding get_dstat table
get_dstat-found ops device g s v e =
    rw (e, get_dstat) (record { stat = rw e refl; valid = v; entry = λ d. ground (arith, e) })

module _ (ops : RbOps) (device : ℕ) (g : Dstats) (v : IsValid g)
    (e : find_dstat device g.dstat_tree ≡ none) where
  fresh : BlkiomonStat
  fresh = record blkiomon_stat_init { device = device }

  linked : Tree BlkiomonStat
  linked = link (goes_before fresh) fresh g.dstat_tree

  inserted : Tree BlkiomonStat
  unfolding linked fresh
  inserted = ops.rb_insert_color (link_place (goes_before fresh) g.dstat_tree) linked

  linked-Descending : Descending (to_list linked)
  unfolding linked fresh
  linked-Descending = link-Descending fresh g.dstat_tree e v.sorted

  inserted-find :
      (d : ℕ)
      → find_dstat d inserted ≡ (if d == device then some fresh else find_dstat d g.dstat_tree)
  unfolding inserted linked fresh
  inserted-find d =
      find_dstat-order inserted linked d (ops.rb_insert_color_lem _ linked) linked-Descending
      ∙ find_dstat-link fresh g.dstat_tree d e

  get_dstat-fresh : Gotten device g (get_dstat ops device g)
  unfolding get_dstat table inserted linked fresh
  get_dstat-fresh =
      rw (e, get_dstat)
        (record {
          stat = rw e refl;
          valid = record {
            sorted = subst Descending (sym (ops.rb_insert_color_lem _ linked)) linked-Descending;
            own = λ d s f. ground (arith, inserted-find d, f, v.own d s);
            once = λ d. ground (arith, inserted-find d, v.once d, e);
          };
          entry = λ d. inserted-find d;
        })

get_dstat-Gotten :
    (ops : RbOps) (device : ℕ) (g : Dstats) → IsValid g → Gotten device g (get_dstat ops device g)
get_dstat-Gotten ops device g v = elim (Option-cases (find_dstat device g.dstat_tree)) [
  | inl e ↦ get_dstat-fresh ops device g v e
  | inr (s, e) ↦ get_dstat-found ops device g s v e
]

-- The statistics p of a device in the table, written over with p'
module _ (g : Dstats) (v : IsValid g) (p p' : BlkiomonStat)
    (e : find_dstat p'.device g.dstat_tree ≡ some p) where
  written : Dstats
  written = record g { dstat_tree = put_dstat p' g.dstat_tree }

  written-find :
      (d : ℕ)
      → find_dstat d (put_dstat p' g.dstat_tree)
        ≡ (if d == p'.device then some p' else find_dstat d g.dstat_tree)
  written-find d = find_dstat-put_dstat p' g.dstat_tree d p e

  written-IsValid : IsValid written
  unfolding written
  written-IsValid = record {
    sorted = put_dstat-Descending p' g.dstat_tree v.sorted;
    own = λ d s f. ground (arith, written-find d, f, v.own d s);
    once = λ d. ground (arith, written-find d, v.once d, e);
  }

-- The outcome of accounting a D and a C trace, for the table: the entry of the device changes, alone.
abbrev pub Accounted : BlkIoTrace → BlkIoTrace → Dstats → Option Dstats → Type 0
Accounted d c g none = blkiomon_account d c (stat_or_init d.device (table g d.device)) ≡ none
Accounted d c g (some g') =
    IsValid g'
    × ((p : BlkiomonStat) × (blkiomon_account d c (stat_or_init d.device (table g d.device))
          ≡ some p)
        × ((device : ℕ)
            → table g' device ≡ (if device == d.device then some p else table g device)))

-- On valid statistics, blkiomon_account fails where the accounting of the device's statistics does. Else it leaves
-- valid statistics, which have the result for the device, and for the others what they had.
pub account_dstat-Accounted :
    (ops : RbOps) (d c : BlkIoTrace) (g : Dstats)
    → IsValid g
    → Accounted d c g (account_dstat ops d c g)
unfolding account_dstat table written
account_dstat-Accounted ops d c g v =
    let got = get_dstat-Gotten ops d.device g v in
    let (p, g') = get_dstat ops d.device g in
    elim (Option-cases (blkiomon_account d c p)) [
      | inl e ↦ rw (account_dstat, e) (subst (λ q. blkiomon_account d c q ≡ none) got.stat e)
      | inr (p', e) ↦
          let here : find_dstat d.device g'.dstat_tree ≡ some p =
            ground (arith, got.entry d.device) in
          let dev : p'.device ≡ d.device =
            blkiomon_account-device d c p p' e ∙ got.valid.own d.device p here in
          let found : find_dstat p'.device g'.dstat_tree ≡ some p =
            subst (λ n. find_dstat n g'.dstat_tree ≡ some p) (sym dev) here in
          rw (account_dstat, e)
            (
              written-IsValid g' got.valid p p' found,
              (
                p',
                subst (λ q. blkiomon_account d c q ≡ some p') got.stat e,
                λ device.
                    ground
                      (arith, written-find g' got.valid p p' found device, got.entry device, dev),
              ),
            )
    ]
