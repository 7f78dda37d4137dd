-- ===== src/Iomon/Matching/Summary.antt =====
-- The statistics that a sequence of traces leads to: those of the pairs of a D trace and its C trace.
use blktrace.Common.{
  ℕ, ◌≡◌, refl, ap, ◌∙◌, subst, Option, none, some, List, [], ◌∷◌, ◌++◌, if◌then◌else◌,
  Option-cases, inl, inr, OnSome,
}
use mathlib.Core.Option
use mathlib.Core.Path.{fun_ext}
use blktrace.Trace.Record.{BlkIoTrace}
use blktrace.Parse.RbTree.{RbOps}
use blktrace.Iomon.Devices.{Dstats, account_dstat, blkiomon_interval, no_dstats}
use blktrace.Iomon.Devices.Interval.{
  account_dstats, account_device, stamped, stats_for, blkiomon_interval-account,
}
use blktrace.Iomon.Matching.{
  Iomon, start, same_request, d_then_c, older, younger, do_trace, do_traces,
}
use blktrace.Iomon.Matching.Pending.{IsValid, waiting, Fetched, fetch_trace-Fetched}
use blktrace.Iomon.Matching.Runs.{
  resolve, do_trace-Stepped, Did, do_trace-Did, stored, failed, accounted, replaced,
}

-- What waits for the request of each trace
abbrev pub Table : Type 0
Table = BlkIoTrace → Option BlkIoTrace

unfoldable pub step : Table → BlkIoTrace → Table
unfolding resolve
step waits t u = if same_request u t then resolve (waits t) t else waits u

-- The D trace and the C trace that t makes with the trace that waits for its request
unfoldable pub pair_of : Option BlkIoTrace → BlkIoTrace → List (BlkIoTrace × BlkIoTrace)
pair_of none t = []
pair_of (some s) t =
    if d_then_c (older s t) (younger s t) then (older s t, younger s t) ∷ [] else []

-- The pairs of a sequence of traces, with one waiting trace for each request
unfoldable pub pairs : Table → List BlkIoTrace → List (BlkIoTrace × BlkIoTrace)
unfolding pair_of step
pairs waits [] = []
pairs waits (t ∷ ts) = pair_of (waits t) t ++ pairs (step waits t) ts

-- The statistics after one trace
Did-account :
    {ops : RbOps} {t : BlkIoTrace} {m : Iomon} {out : Option Iomon}
    → Did ops t m out
    → IsValid m.thash
    → OnSome
        (λ (m' : Iomon).
          account_dstats ops (pair_of (waiting m.thash t) t) m.dstats ≡ some m'.dstats)
        out
unfolding account_dstats pair_of Option.bind
Did-account {t} {m} (stored e) v =
    let nothing = subst (Fetched m.thash t) e (fetch_trace-Fetched m.thash t v) in rw nothing refl
Did-account (failed _ _) v = tt
Did-account {t} {m} (accounted {s} {out} e h c _ _ f) v =
    let g = subst (Fetched m.thash t) e (fetch_trace-Fetched m.thash t v) in
    rw (g.1, pair_of, h, account_dstats, f) refl
Did-account {t} {m} (replaced {s} {thash} e h) v =
    let g = subst (Fetched m.thash t) e (fetch_trace-Fetched m.thash t v) in
    rw (g.1, pair_of, h) refl

account_dstats-append :
    (ops : RbOps) (k l : List (BlkIoTrace × BlkIoTrace)) (g : Dstats)
    → account_dstats ops (k ++ l) g ≡ Option.bind (account_dstats ops k g) (account_dstats ops l)
unfolding account_dstats Option.bind
account_dstats-append ops [] l g = refl
account_dstats-append ops ((d, c) ∷ k) l g = elim (Option-cases (account_dstat ops d c g)) [
  | inl e ↦ rw e refl
  | inr (h, e) ↦ rw e (account_dstats-append ops k l h)
]

do_traces-account :
    (ops : RbOps) (ts : List BlkIoTrace) (m m' : Iomon)
    → IsValid m.thash
    → do_traces ops ts m ≡ some m'
    → account_dstats ops (pairs (waiting m.thash) ts) m.dstats ≡ some m'.dstats
unfolding do_traces pairs account_dstats Option.bind step
do_traces-account ops [] m m' v e = ap (λ k. some k.dstats) (Option.some-injective _ _ e)
do_traces-account ops (t ∷ ts) m m' v e = elim (Option-cases (do_trace ops t m)) [
  | inl f ↦ let bad : none ≡ some m' = rw (f, do_traces) at e in cc
  | inr (k, f) ↦
      let one =
        subst
          (OnSome (λ (q : Iomon).
            account_dstats ops (pair_of (waiting m.thash t) t) m.dstats ≡ some q.dstats))
          f (Did-account (do_trace-Did ops t m) v) in
      let s = do_trace-Stepped ops t m k v f in
      let rest = do_traces-account ops ts k m' s.valid (rw (f, do_traces) at e) in
      let same : waiting k.thash ≡ step (waiting m.thash) t = fun_ext (λ u. s.pending u) in
      account_dstats-append ops (pair_of (waiting m.thash t) t)
        (pairs (step (waiting m.thash) t) ts) m.dstats
      ∙ (rw one (subst (λ w. account_dstats ops (pairs w ts) k.dstats ≡ some m'.dstats) same rest))
]

abbrev pub nothing_waits : Table
nothing_waits u = none

pub start-IsValid : IsValid start.thash
start-IsValid = record { placed = λ i. tt; unique = λ i. tt }

start-waiting : waiting start.thash ≡ nothing_waits
unfolding waiting
start-waiting = refl

-- blkiomon gathers the traces of an interval, from its start and with no division by zero, and the
-- interval ends. The statistics of a device are put out once, with the time of the wake-up, if a
-- request of it was matched, and else not at all. They are what the accounting of the device's own
-- pairs of D and C traces gives: those matched with one trace waiting for each request.
pub do_traces-blkiomon_interval :
    (ops : RbOps) (ts : List BlkIoTrace) (m : Iomon) (tv_sec : ℕ) (other : Dstats)
    → do_traces ops ts start ≡ some m
    → (device : ℕ)
    → stats_for device (blkiomon_interval tv_sec (record { current = m.dstats; other = other })).0
      ≡ stamped tv_sec (account_device device (pairs nothing_waits ts) none)
do_traces-blkiomon_interval ops ts m tv_sec other e device =
    blkiomon_interval-account ops (pairs nothing_waits ts) tv_sec m.dstats other
      (subst (λ w. account_dstats ops (pairs w ts) no_dstats ≡ some m.dstats) start-waiting
        (do_traces-account ops ts start m start-IsValid e))
      device
