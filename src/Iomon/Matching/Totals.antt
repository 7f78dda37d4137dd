-- ===== src/Iomon/Matching/Totals.antt =====
-- That the matching comes to an end of its input, and where the traces have gone.
use blktrace.Common.{
  ℕ, zero, suc, ◌+◌, ◌*◌, ◌/◌, ◌≤◌, ◌<◌, ◌^◌, ◌≡◌, refl, ap, sym, ◌∙◌, ◌⊎◌, subst, true, false,
  Option, none, some, List, [], ◌∷◌, ◌==◌, if◌then◌else◌, ltb, sub64, All, Bool-cases, inl, inr,
  length, OnSome, arith,
}
use mathlib.Core.Option
use blktrace.Trace.Record.{BlkIoTrace}
use blktrace.Parse.RbTree.{RbOps}
use blktrace.Iomon.{BlkiomonStat, blkiomon_account}
use blktrace.Iomon.Devices.Accounts
use blktrace.Iomon.Devices.Accounts.{Accounted, account_dstat-Accounted}
use blktrace.Iomon.Devices.Interval.{empty-IsValid}
use blktrace.Iomon.Matching.{
  Iomon, start, slot, fetch_trace, store_trace, put_chain, same_request, d_then_c, older, younger,
  do_trace, do_traces,
}
use blktrace.Iomon.Matching.Pending.{
  IsValid, waiting, Fetched, fetch_trace-Fetched, fetch_trace-length,
}
use blktrace.Iomon.Matching.Runs.{
  resolve, Stepped, do_trace-Stepped, Did, do_trace-Did, stored, failed, accounted, replaced,
}
use blktrace.Iomon.Matching.Summary.{start-IsValid}

-- The traces in the first n chains
unfoldable pub held : ℕ → (ℕ → List BlkIoTrace) → ℕ
held zero thash = 0
held (suc n) thash = length (thash n) + held n thash

held-put_chain :
    (n i : ℕ) (thash : ℕ → List BlkIoTrace) (chain : List BlkIoTrace)
    → held n (put_chain thash i chain) + (if ltb i n then length (thash i) else 0)
      ≡ held n thash + (if ltb i n then length chain else 0)
unfolding held put_chain
held-put_chain zero i thash chain = ground arith
held-put_chain (suc n) i thash chain = elim (Bool-cases (n == i)) [
  | inl h ↦
      let e : i ≡ n = ground (arith, h) in
      rw h (ground (arith, held-put_chain n i thash chain, ap (λ k. length (thash k)) e, e))
  | inr h ↦ rw h (ground (arith, held-put_chain n i thash chain, h))
]

-- Two traces whose times are a microsecond or more apart
abbrev pub IsApart : BlkIoTrace → BlkIoTrace → Type 0
IsApart a b = (a.time + 1000 ≤ b.time) ⊎ (b.time + 1000 ≤ a.time)

-- The trace is apart from those of ts that are for its request, and its time has 64 bits.
abbrev pub FarFrom : BlkIoTrace → List BlkIoTrace → Type 0
FarFrom t ts = (t.time < 2 ^ 64) × All (λ u. same_request u t ≡ true → IsApart t u) ts

-- So is each trace from those after it.
abbrev pub Slow : List BlkIoTrace → Type 0
Slow [] = Unit {0}
Slow (t ∷ ts) = FarFrom t ts × Slow ts

blkiomon_account-some :
    (d c : BlkIoTrace) (p : BlkiomonStat)
    → d.time + 1000 ≤ c.time
    → c.time < 2 ^ 64
    → (q : BlkiomonStat) × (blkiomon_account d c p ≡ some q)
unfolding blkiomon_account
blkiomon_account-some d c p h k =
    let late : (sub64 c.time d.time / 1000 == 0) ≡ false = ground (arith, h, k) in rw late (_, refl)

slot_lt : (t : BlkIoTrace) → slot t < 128
unfolding slot
slot_lt t = omega arith

-- A chain is written over.
held_put :
    (thash : ℕ → List BlkIoTrace) (t : BlkIoTrace) (chain : List BlkIoTrace)
    → held 128 (put_chain thash (slot t) chain) + length (thash (slot t))
      ≡ held 128 thash + length chain
held_put thash t chain =
    let h = held-put_chain 128 (slot t) thash chain in
    let k : ltb (slot t) 128 ≡ true = ground (arith, slot_lt t) in rw k at h

store_trace-held :
    (thash : ℕ → List BlkIoTrace) (t : BlkIoTrace)
    → held 128 (store_trace thash t) ≡ held 128 thash + 1
unfolding store_trace
store_trace-held thash t = omega (arith, held_put thash t (t ∷ thash (slot t)))

fetch_trace-held :
    (thash thash' : ℕ → List BlkIoTrace) (bit t : BlkIoTrace)
    → IsValid thash
    → fetch_trace thash bit ≡ some (t, thash')
    → held 128 thash ≡ held 128 thash' + 1
fetch_trace-held thash thash' bit t v e =
    let (left, f, l) = fetch_trace-length thash thash' bit t v e in
    rw f (omega (arith, held_put thash bit left, l))

-- A trace waits, was matched with another, or was dropped for a later one.
abbrev pub seen : Iomon → ℕ
seen m = held 128 m.thash + 2 * m.matched + m.mismatched

Did-seen :
    {ops : RbOps} {t : BlkIoTrace} {m : Iomon} {out : Option Iomon}
    → Did ops t m out
    → IsValid m.thash
    → OnSome (λ m'. seen m' ≡ seen m + 1) out
Did-seen {t} {m} (stored e) v = omega (arith, store_trace-held m.thash t)
Did-seen (failed _ _) v = tt
Did-seen {t} {m} (accounted {s} {thash} {out} e h c a b f) v =
    let one = fetch_trace-held m.thash thash t s v e in omega (arith, one, ap (held 128) c, a, b)
Did-seen {t} {m} (replaced {s} {thash} e h) v =
    omega (arith, fetch_trace-held m.thash thash t s v e, store_trace-held thash (younger s t))

-- A state from which the traces of ts can be matched
record Ready (ts : List BlkIoTrace) (m : Iomon) : Type 0 where
  valid : IsValid m.thash
  stats : Accounts.IsValid m.dstats
  far : (u s : BlkIoTrace) → waiting m.thash u ≡ some s → FarFrom s ts

older-younger :
    (s t : BlkIoTrace)
    → s.time < 2 ^ 64
    → t.time < 2 ^ 64
    → IsApart s t
    → ((older s t).time + 1000 ≤ (younger s t).time) × ((younger s t).time < 2 ^ 64)
unfolding older younger
older-younger s t hs ht a = elim (Bool-cases (ltb s.time t.time)) [
  | inl h ↦ rw h (ground (arith, h, a), ht)
  | inr h ↦ rw h (ground (arith, h, a), hs)
]

resolve-FarFrom :
    (ts : List BlkIoTrace) (o : Option BlkIoTrace) (t x : BlkIoTrace)
    → FarFrom t ts
    → ((s : BlkIoTrace) → o ≡ some s → FarFrom s ts)
    → resolve o t ≡ some x
    → FarFrom x ts
unfolding resolve younger
resolve-FarFrom ts none t x f g e = subst (λ y. FarFrom y ts) (Option.some-injective _ _ e) f
resolve-FarFrom ts (some s) t x f g e = elim (Bool-cases (d_then_c (older s t) (younger s t))) [
  | inl h ↦ let bad : none ≡ some x = rw h at e in cc
  | inr h ↦
      let same : some (younger s t) ≡ some x = rw h at e in
      subst (λ y. FarFrom y ts) (Option.some-injective _ _ same)
        (elim (Bool-cases (ltb s.time t.time)) [ inl k ↦ rw k f | inr k ↦ rw k (g s refl) ])
]

Stepped-far :
    (t : BlkIoTrace) (ts : List BlkIoTrace) (m m' : Iomon)
    → Ready (t ∷ ts) m
    → FarFrom t ts
    → Stepped t m m'
    → (u s : BlkIoTrace) → waiting m'.thash u ≡ some s
    → FarFrom s ts
Stepped-far t ts m m' r f k u s e =
    let still : (v x : BlkIoTrace) → waiting m.thash v ≡ some x → FarFrom x ts =
      λ v x d. ((r.far v x d).0, (r.far v x d).1.1) in
    elim (Bool-cases (same_request u t)) [
      | inl h ↦
          resolve-FarFrom ts (waiting m.thash t) t s f (still t) (rw h at (sym (k.pending u) ∙ e))
      | inr h ↦ still u s (rw h at (sym (k.pending u) ∙ e))
    ]

-- The statistics are valid after a trace, and there is no failure.
Did-stats :
    {ops : RbOps} {t : BlkIoTrace} {ts : List BlkIoTrace} {m : Iomon} {out : Option Iomon}
    → Did ops t m out
    → Ready (t ∷ ts) m
    → t.time < 2 ^ 64
    → (m' : Iomon) × (out ≡ some m') × Accounts.IsValid m'.dstats
Did-stats (stored e) r h = (_, refl, r.stats)
Did-stats (replaced e _) r h = (_, refl, r.stats)
Did-stats {ops} {t} {m} (accounted {s} {thash} {out} e _ _ _ _ f) r h =
    let d = account_dstat-Accounted ops (older s t) (younger s t) m.dstats r.stats in
    (out, refl, (subst (Accounted (older s t) (younger s t) m.dstats) f d).0)
Did-stats {ops} {t} {m} (failed {s} e f) r h =
    let g = subst (Fetched m.thash t) e (fetch_trace-Fetched m.thash t r.valid) in
    let far = r.far t s g.1 in
    let o = older-younger s t far.0 h (far.1.0 g.0) in
    let d =
      subst (Accounted (older s t) (younger s t) m.dstats) f
        (account_dstat-Accounted ops (older s t) (younger s t) m.dstats r.stats) in
    let (q, p) = blkiomon_account-some (older s t) (younger s t) _ o.0 o.1 in
    let bad : none ≡ some q = sym d ∙ p in cc

do_trace-Ready :
    (ops : RbOps) (t : BlkIoTrace) (ts : List BlkIoTrace) (m : Iomon)
    → Ready (t ∷ ts) m
    → FarFrom t ts
    → (m' : Iomon) × (do_trace ops t m ≡ some m') × Ready ts m'
do_trace-Ready ops t ts m r f =
    let (m', e, stats) = Did-stats (do_trace-Did ops t m) r f.0 in
    let s = do_trace-Stepped ops t m m' r.valid e in
    (m', e, record { valid = s.valid; stats = stats; far = Stepped-far t ts m m' r f s })

do_traces-Ready :
    (ops : RbOps) (ts : List BlkIoTrace) (m : Iomon)
    → Slow ts
    → Ready ts m
    → (m' : Iomon) × (do_traces ops ts m ≡ some m') × (seen m' ≡ seen m + length ts)
unfolding do_traces
do_traces-Ready ops [] m s r = (m, refl, omega arith)
do_traces-Ready ops (t ∷ ts) m s r =
    let (k, e, ready) = do_trace-Ready ops t ts m r s.0 in
    let one =
      subst (OnSome (λ q. seen q ≡ seen m + 1)) e (Did-seen (do_trace-Did ops t m) r.valid) in
    let (m', f, n) = do_traces-Ready ops ts k s.1 ready in
    (m', rw (e, do_traces) f, omega (arith, one, n))

start-Ready : (ts : List BlkIoTrace) → Ready ts start
unfolding waiting
start-Ready ts = record { valid = start-IsValid; stats = empty-IsValid; far = λ u s e. cc }

start-held : held 128 start.thash ≡ 0
unfolding held
start-held = refl

-- If traces for the same request are a microsecond or more apart, in times of 64 bits, then all the
-- traces are taken: no division by zero stops the program. Their number is that of the traces that
-- wait in the hash, with two for each match and one for each mismatch.
pub do_traces-seen :
    (ops : RbOps) (ts : List BlkIoTrace)
    → Slow ts
    → (m : Iomon) × (do_traces ops ts start ≡ some m)
      × (held 128 m.thash + 2 * m.matched + m.mismatched ≡ length ts)
do_traces-seen ops ts s =
    let (m, e, n) = do_traces-Ready ops ts start s (start-Ready ts) in
    (m, e, omega (arith, n, start-held))
