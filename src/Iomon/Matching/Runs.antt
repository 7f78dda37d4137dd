-- ===== src/Iomon/Matching/Runs.antt =====
-- Runs of blkiomon_do_trace: what waits, what is matched, and the counters.
use blktrace.Common.{
  ℕ, ◌+◌, ◌≡◌, refl, ap, sym, ◌∙◌, subst, true, false, Option, none, some, List, if◌then◌else◌, ltb,
  Bool-cases, Option-cases, inl, inr, OnSome,
}
use blktrace.Trace.Record.{BlkIoTrace}
use blktrace.Parse.RbTree.{RbOps}
use blktrace.Iomon.Devices.{account_dstat}
use blktrace.Iomon.Matching.{
  Iomon, fetch_trace, store_trace, same_request, d_then_c, older, younger, do_trace,
}
use blktrace.Iomon.Matching.Pending.{
  IsValid, waiting, Fetched, fetch_trace-Fetched, store_trace-waiting, store_trace-IsValid,
}
use blktrace.Iomon.Matching.Chains.{same_request_congr, same_request_symm}

-- What waits for the request of a trace t once t has come: t itself if nothing waited; nothing if the two
-- are a D trace and a later C trace; and else the later of the two.
unfoldable pub resolve : Option BlkIoTrace → BlkIoTrace → Option BlkIoTrace
resolve none t = some t
resolve (some s) t = if d_then_c (older s t) (younger s t) then none else some (younger s t)

pub record Stepped (t : BlkIoTrace) (m m' : Iomon) : Type 0 where
  pub valid : IsValid m'.thash
  pub pending :
      (u : BlkIoTrace)
      → waiting m'.thash u
        ≡ (if same_request u t then resolve (waiting m.thash t) t else waiting m.thash u)

-- The later of two traces for a request is for that request.
younger-same :
    (u s t : BlkIoTrace) → same_request t s ≡ true → same_request u (younger s t) ≡ same_request u t
unfolding younger
younger-same u s t h = elim (Bool-cases (ltb s.time t.time)) [
  | inl k ↦ rw k refl
  | inr k ↦ rw k (sym (same_request_congr t s u h))
]

-- The ways through blkiomon_do_trace
pub data Did (ops : RbOps) (t : BlkIoTrace) (m : Iomon) : Option Iomon → Type 0 where
  stored :
      fetch_trace m.thash t ≡ none → Did ops t m (some (record m { thash = store_trace m.thash t }))
  failed :
      {s : BlkIoTrace} {thash : ℕ → List BlkIoTrace}
      → fetch_trace m.thash t ≡ some (s, thash)
      → account_dstat ops (older s t) (younger s t) m.dstats ≡ none
      → Did ops t m none
  accounted :
      {s : BlkIoTrace} {thash : ℕ → List BlkIoTrace} {out : Iomon}
      → fetch_trace m.thash t ≡ some (s, thash)
      → d_then_c (older s t) (younger s t) ≡ true
      → out.thash ≡ thash
      → out.matched ≡ m.matched + 1
      → out.mismatched ≡ m.mismatched
      → account_dstat ops (older s t) (younger s t) m.dstats ≡ some out.dstats
      → Did ops t m (some out)
  replaced :
      {s : BlkIoTrace} {thash : ℕ → List BlkIoTrace}
      → fetch_trace m.thash t ≡ some (s, thash)
      → d_then_c (older s t) (younger s t) ≡ false
      → Did ops t m (
          some
            (record m { thash = store_trace thash (younger s t); mismatched = m.mismatched + 1 }))

pub do_trace-Did : (ops : RbOps) (t : BlkIoTrace) (m : Iomon) → Did ops t m (do_trace ops t m)
unfolding do_trace
do_trace-Did ops t m = elim (Option-cases (fetch_trace m.thash t)) [
  | inl e ↦ rw (e, do_trace) (stored e)
  | inr ((s, thash), e) ↦ elim (Bool-cases (d_then_c (older s t) (younger s t))) [
    | inl h ↦ elim (Option-cases (account_dstat ops (older s t) (younger s t) m.dstats)) [
      | inl f ↦ rw (e, h, f, do_trace) (failed e f)
      | inr (d, f) ↦ rw (e, h, f, do_trace) (accounted e h refl refl refl f)
    ]
    | inr h ↦ rw (e, h, do_trace) (replaced e h)
  ]
]

Did-Stepped :
    {ops : RbOps} {t : BlkIoTrace} {m : Iomon} {out : Option Iomon}
    → Did ops t m out
    → IsValid m.thash
    → OnSome (Stepped t m) out
unfolding resolve
Did-Stepped {t} {m} (stored e) v =
    let nothing = subst (Fetched m.thash t) e (fetch_trace-Fetched m.thash t v) in
    record {
      valid = store_trace-IsValid m.thash t nothing v;
      pending = λ u. store_trace-waiting m.thash t u ∙ (rw nothing refl);
    }
Did-Stepped (failed _ _) v = tt
Did-Stepped {t} {m} (accounted {s} {out} e h c _ _ _) v =
    let f = subst (Fetched m.thash t) e (fetch_trace-Fetched m.thash t v) in
    record {
      valid = subst IsValid (sym c) f.2;
      pending = λ u.
          rw (f.1, resolve, h)
            (ap (λ n. waiting n u) c
              ∙ f.3 u
              ∙ ap (λ b. if b then none else waiting m.thash u)
                  (sym (same_request_congr t s u f.0)));
    }
Did-Stepped {t} {m} (replaced {s} {thash} e h) v =
    let f = subst (Fetched m.thash t) e (fetch_trace-Fetched m.thash t v) in
    let y = younger s t in
    let removed : waiting thash y ≡ none =
      f.3 y
      ∙ (rw (same_request_symm y s, younger-same s s t f.0, same_request_symm s t, f.0) refl) in
    record {
      valid = store_trace-IsValid thash y removed f.2;
      pending = λ u.
          rw (f.1, resolve, h)
            (store_trace-waiting thash y u
              ∙ (rw (younger-same u s t f.0, f.3 u, sym (same_request_congr t s u f.0))
                  (elim (Bool-cases (same_request u t)) [
                    | inl k ↦ rw k refl
                    | inr k ↦ rw k refl
                  ])));
    }

-- A trace comes, and the loop goes on: at most one trace waits for each request, as before. What waits for the
-- request of the trace is as resolve says, and what waits for the others is as it was.
pub do_trace-Stepped :
    (ops : RbOps) (t : BlkIoTrace) (m m' : Iomon)
    → IsValid m.thash
    → do_trace ops t m ≡ some m'
    → Stepped t m m'
do_trace-Stepped ops t m m' v e =
    subst (OnSome (Stepped t m)) e (Did-Stepped (do_trace-Did ops t m) v)
