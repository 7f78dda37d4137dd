-- ===== src/Parse/Streams/Merge.antt =====
-- The main loop of do_file takes the traces of all streams in the order of their times.
use mathlib.Core.List.{Perm}
use mathlib.Core.List.Perm
use blktrace.Common.{
  ℕ, zero, suc, ◌<◌, ◌≤◌, ◌≡◌, refl, sym, ◌∙◌, ap, Bool, Option, none, some, List, [], ◌∷◌, ◌++◌,
  arith, length, length-Perm, All, All-Perm, if◌then◌else◌, Bool-cases, inl, inr, ◌==◌, ==_iff,
  subst,
}
use native.Mathlib.Bridge.{le_prop}
use blktrace.Trace.Record.{BlkIoTrace}
use blktrace.Parse.Streams.{Reader, MsStream, head_time, ms_resort, refill, ms_next}
use blktrace.Parse.Streams.Read.{unread, OwnRest, pending, Refilled, ms_prime-Refilled}
use blktrace.Parse.Streams.Order.{
  HeadsFrom, Ordered, Each, ms_resort-Ordered, ms_resort-Each, total, ms_resort-total,
}

-- while (ms_head && handle(ms_head)), as far as the streams go: the traces in the order in which
-- handle() is given them, until no stream is left or the fuel is spent.
pub drain : ℕ → ℕ → Reader → List MsStream → List BlkIoTrace
unfolding ms_next
drain zero rb_batch r streams = []
drain (suc fuel) rb_batch r streams = elim (ms_next rb_batch r streams) [
  | none ↦ []
  | some (t, (r', streams')) ↦ t ∷ drain fuel rb_batch r' streams'
]

-- No trace of the list is before the time m.
abbrev pub TimesFrom : ℕ → List BlkIoTrace → Type 0
TimesFrom m = All (λ t. m ≤ t.time)

abbrev pub InTimeOrder : List BlkIoTrace → Type 0
InTimeOrder [] = Unit {0}
InTimeOrder (t ∷ ts) = TimesFrom t.time ts × InTimeOrder ts

TimesFrom-mono : {m n : ℕ} (l : List BlkIoTrace) → n ≤ m → TimesFrom m l → TimesFrom n l
TimesFrom-mono [] h f = tt
TimesFrom-mono {m} {n} (t ∷ ts) h f = (omega arith, TimesFrom-mono {m = m} {n = n} ts h f.1)

TimesFrom-append :
    (m : ℕ) (xs ys : List BlkIoTrace) → TimesFrom m xs → TimesFrom m ys → TimesFrom m (xs ++ ys)
TimesFrom-append m [] ys f g = g
TimesFrom-append m (x ∷ xs) ys f g = (f.0, TimesFrom-append m xs ys f.1 g)

module _ (b : Bool) where
  -- A stream of the list: its queue is not empty, its file has no record of another CPU, and what
  -- is still to come from it is in the order of time.
  pub record IsStream (msp : MsStream) : Type 0 where
    pub queued : 0 < length msp.first
    pub own : OwnRest b msp.cpu msp.fd
    pub in_order : InTimeOrder (pending b msp)

  -- The list ms_head, and the byte order known.
  pub record IsList (r : Reader) (l : List MsStream) : Type 0 where
    pub native : r.native ≡ some b
    pub streams : Each IsStream l
    pub ordered : Ordered l

  first-TimesFrom :
      (m : ℕ) (first rest : List BlkIoTrace)
      → 0 < length first
      → InTimeOrder (first ++ rest)
      → m ≤ head_time first
      → TimesFrom m (first ++ rest)
  first-TimesFrom m [] rest q o h = absurd (omega arith)
  first-TimesFrom m (t ∷ ts) rest q o h =
      (h, TimesFrom-mono {m = t.time} {n = m} (ts ++ rest) h o.0)

  rest-TimesFrom :
      (m : ℕ) (l : List MsStream) → Each IsStream l → HeadsFrom m l → TimesFrom m (total b l)
  unfolding total
  rest-TimesFrom m [] v h = tt
  rest-TimesFrom m (s ∷ l) v h =
      TimesFrom-append m (pending b s) (total b l)
        (first-TimesFrom m s.first (unread b s.cpu s.fd) v.0.queued v.0.in_order h.0)
        (rest-TimesFrom m l v.1 h.1)

  -- The list after the first trace of its first stream has been taken.
  record Taken (later : List BlkIoTrace) (rest : List MsStream) (out : Reader × List MsStream)
      : Type 0 where
    list : IsList out.0 out.1
    same : Perm (total b out.1) (later ++ total b rest)

  resort-Taken :
      (r : Reader) (msp : MsStream) (rest : List MsStream) (later : List BlkIoTrace)
      → IsList r rest
      → IsStream msp
      → pending b msp ≡ later
      → Taken later rest (r, ms_resort msp rest)
  resort-Taken r msp rest later v s e = record {
    list = record {
      native = v.native;
      streams = ms_resort-Each IsStream msp rest s v.streams;
      ordered = ms_resort-Ordered msp rest v.ordered;
    };
    same = rw (← e) (ms_resort-total b msp rest);
  }

  module _ (rb_batch : ℕ) (pos : 0 < rb_batch) where
    prime-Taken :
        (msp : MsStream) (rest : List MsStream) (later : List BlkIoTrace)
        → OwnRest b msp.cpu msp.fd
        → InTimeOrder later
        → later ≡ unread b msp.cpu msp.fd
        → msp.first ≡ []
        → (out : Reader × MsStream × ℕ) → Refilled b rb_batch msp out
        → IsList out.0 rest
        → Taken later rest (if out.2 == 0 then (out.0, rest) else (out.0, ms_resort out.1 rest))
    prime-Taken msp rest later own o l f out p v =
        let same : pending b out.1 ≡ later =
          p.kept ∙ (ap (λ q. q ++ unread b msp.cpu msp.fd) f ∙ sym l) in
        elim (Bool-cases (out.2 == 0)) [
          | inl done ↦ rw done (record {
            list = v;
            same = rw (l ∙ p.stuck ((==_iff out.2 0).0 done)) (Perm.refl (total b rest));
          })
          | inr more ↦ rw more (
              resort-Taken out.0 out.1 rest later v
                (record {
                  queued = ground (arith, p.counted);
                  own = p.own;
                  in_order = subst InTimeOrder (sym same) o;
                })
                same)
        ]

    refill-Taken :
        (r : Reader) (msp : MsStream) (rest : List MsStream) (ts : List BlkIoTrace)
        → IsList r rest
        → OwnRest b msp.cpu msp.fd
        → InTimeOrder (ts ++ unread b msp.cpu msp.fd)
        → Taken (ts ++ unread b msp.cpu msp.fd) rest (refill rb_batch r msp rest ts)
    unfolding refill
    refill-Taken r msp rest [] v own o =
        let p = ms_prime-Refilled b rb_batch r (record msp { first = [] }) v.native pos own in
        prime-Taken (record msp { first = [] }) rest _ own o refl refl _ p
          (record { native = p.native; streams = v.streams; ordered = v.ordered })
    refill-Taken r msp rest (t ∷ ts) v own o =
        resort-Taken r (record msp { first = t ∷ ts }) rest _ v
          (record { queued = omega arith; own = own; in_order = o }) refl

    ms_next-cons :
        (r : Reader) (msp : MsStream) (rest : List MsStream) (t : BlkIoTrace) (ts : List BlkIoTrace)
        → msp.first ≡ t ∷ ts
        → ms_next rb_batch r (msp ∷ rest) ≡ some (t, refill rb_batch r msp rest ts)
    unfolding ms_next
    ms_next-cons r msp rest t ts e = simp e

    -- What ms_next is to return from a list of streams.
    abbrev Next : List MsStream → Option (BlkIoTrace × (Reader × List MsStream)) → Type 0
    Next l none = total b l ≡ []
    Next l (some (t, (r', l'))) =
        IsList r' l' × Perm (t ∷ total b l') (total b l) × TimesFrom t.time (total b l')

    ms_next-Next : (r : Reader) (l : List MsStream) → IsList r l → Next l (ms_next rb_batch r l)
    unfolding total ms_next
    ms_next-Next r [] v = refl
    ms_next-Next r (msp ∷ rest) v = go msp.first refl
      where
        go :
            (first : List BlkIoTrace)
            → msp.first ≡ first
            → Next (msp ∷ rest) (ms_next rb_batch r (msp ∷ rest))
        go [] e = absurd (omega (arith, v.streams.0.queued, ap length e))
        go (t ∷ ts) e =
            let s = v.streams.0 in
            let o = subst (λ q. InTimeOrder (q ++ unread b msp.cpu msp.fd)) e s.in_order in
            let k =
              refill-Taken r msp rest ts
                (record { native = v.native; streams = v.streams.1; ordered = v.ordered.1 }) s.own
                o.1 in
            let later = ts ++ unread b msp.cpu msp.fd in
            let from = TimesFrom-append t.time later (total b rest) o.0 (
              rest-TimesFrom t.time rest v.streams.1
                (subst (λ q. HeadsFrom (head_time q) rest) e v.ordered.0)) in
            rw (ms_next-cons r msp rest t ts e) (
              k.list,
              rw e (Perm.cons t k.same),
              All-Perm (λ u. t.time ≤ u.time) (λ u. le_prop) (Perm.symm k.same) from,
            )

    -- What the loop is to give: all that is to come from the streams, in time order.
    abbrev pub Drained : List MsStream → List BlkIoTrace → Type 0
    Drained l out = Perm out (total b l) × InTimeOrder out

    drain-some :
        (fuel : ℕ) (r : Reader) (l : List MsStream) (t : BlkIoTrace) (n : Reader × List MsStream)
        → ms_next rb_batch r l ≡ some (t, n)
        → drain (suc fuel) rb_batch r l ≡ t ∷ drain fuel rb_batch n.0 n.1
    unfolding drain
    drain-some fuel r l t n e = rw (e, drain)

    drain-none :
        (fuel : ℕ) (r : Reader) (l : List MsStream)
        → ms_next rb_batch r l ≡ none
        → drain fuel rb_batch r l ≡ []
    unfolding drain
    drain-none zero r l e = refl
    drain-none (suc fuel) r l e = rw (e, drain)

    Perm_nil : (l : List BlkIoTrace) → length l ≤ 0 → Perm [] l
    Perm_nil [] h = Perm.refl []
    Perm_nil (t ∷ ts) h = absurd (omega arith)

    pub drain-Drained :
        (fuel : ℕ) (r : Reader) (l : List MsStream)
        → IsList r l
        → length (total b l) ≤ fuel
        → Drained l (drain fuel rb_batch r l)
    drain-Drained zero r l v h = unfold drain in (Perm_nil (total b l) h, tt)
    drain-Drained (suc fuel) r l v h =
        go (drain-Drained fuel) (ms_next rb_batch r l) refl (ms_next-Next r l v)
      where
        go :
            ((r' : Reader) (l' : List MsStream)
              → IsList r' l'
              → length (total b l') ≤ fuel
              → Drained l' (drain fuel rb_batch r' l'))
            → (o : Option (BlkIoTrace × (Reader × List MsStream))) → ms_next rb_batch r l ≡ o
            → Next l o
            → Drained l (drain (suc fuel) rb_batch r l)
        go ih none e n = rw (drain-none (suc fuel) r l e, n) (Perm.refl [], tt)
        go ih (some (t, (r', l'))) e (v', p, f) =
            let d = ih r' l' v' (omega (arith, length-Perm p)) in
            rw (drain-some fuel r l t (r', l') e) (
              Perm.trans (Perm.cons t d.0) p,
              (All-Perm (λ u. t.time ≤ u.time) (λ u. le_prop) (Perm.symm d.0) f, d.1),
            )
