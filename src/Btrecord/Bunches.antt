-- ===== src/Btrecord/Bunches.antt =====
-- One IO more: a stream keeps its bunches within the limit, and loses no packet.
use blktrace.Common.{
  ℕ, suc, ◌+◌, ◌^◌, ◌<◌, ◌≤◌, ◌≡◌, refl, ap, ◌∙◌, sym, true, false, ◌&&◌, ◌||◌, Option, some, List,
  [], ◌∷◌, ◌++◌, map, append_assoc, append-nil, ◌==◌, inl, inr, arith, length, length-append, All,
  Bool-cases, leb, ltb, add64,
}
use blktrace.Btrecord.{
  IoSpec, IoPkt, IoBunch, IoStream, Limits, bt_max_pkts, io_bunch_create, io_bunch_add,
  stream_flush, bunch_done, stream_add_io,
}

abbrev pub pkt_of : IoSpec → IoPkt
pkt_of spec = record { sector = spec.sector; nbytes = spec.bytes; rw = spec.rw }

-- The packets of the bunches, one bunch after the other.
unfoldable pub packets : List IoBunch → List IoPkt
packets [] = []
packets (b ∷ bs) = b.pkts ++ packets bs

packets-append :
    (front : List IoBunch) (b : IoBunch) → packets (front ++ b ∷ []) ≡ packets front ++ b.pkts
unfolding packets
packets-append [] b = append-nil b.pkts
packets-append (a ∷ front) b =
    ap (λ k. a.pkts ++ k) (packets-append front b)
    ∙ sym (append_assoc a.pkts (packets front) b.pkts)

-- A bunch holds at least one packet and at most as many as the limit, and its header counts them.
pub record WellSized (limits : Limits) (b : IoBunch) : Type 0 where
  pub counted : b.npkts ≡ length b.pkts
  pub some_pkt : 0 < b.npkts
  pub bound : b.npkts ≤ limits.max_pkts_per_bunch

All-append {ℓ κ} :
    {A : Type ℓ} (P : A → Type κ) (front : List A) (b : A)
    → All P front
    → P b
    → All P (front ++ b ∷ [])
All-append P [] b h p = (p, tt)
All-append P (a ∷ front) b h p = (h.0, All-append P front b h.1 p)

-- The stream after the IOs `seen`, with the bunch `b` under way and a last IO at `last`.
pub record Building (limits : Limits) (seen : List IoSpec) (b : IoBunch) (last : ℕ) (s : IoStream)
    : Type 0 where
  pub cur : s.cur ≡ some b
  pub sized : WellSized limits b
  pub done : All (WellSized limits) s.ofp
  pub kept : packets s.ofp ++ b.pkts ≡ map pkt_of seen
  pub bunches : s.bunches ≡ length s.ofp
  pub few : length s.ofp < length seen
  pub last_time : s.last_time ≡ last

-- The stream between two bunches
pub record Flushed (limits : Limits) (seen : List IoSpec) (s : IoStream) : Type 0 where
  pub done : All (WellSized limits) s.ofp
  pub kept : packets s.ofp ≡ map pkt_of seen
  pub bunches : s.bunches ≡ length s.ofp
  pub few : length s.ofp ≤ length seen

module _ (limits : Limits) (pos : 1 ≤ limits.max_pkts_per_bunch)
    (fit : limits.max_pkts_per_bunch ≤ 512) where
  abbrev pub Added : List IoSpec → IoSpec → Option IoStream → Type 0
  Added seen spec out =
      (b : IoBunch) × (s : IoStream) × (out ≡ some s)
      × Building limits (seen ++ spec ∷ []) b spec.time s

  map-append :
      (seen : List IoSpec) (spec : IoSpec)
      → map pkt_of (seen ++ spec ∷ []) ≡ map pkt_of seen ++ pkt_of spec ∷ []
  map-append [] spec = refl
  map-append (x ∷ seen) spec = ap (λ k. pkt_of x ∷ k) (map-append seen spec)

  -- A bunch with room for the next IO
  record Ready (seen : List IoSpec) (b : IoBunch) (spec : IoSpec) (s : IoStream) : Type 0 where
    cur : s.cur ≡ some b
    counted : b.npkts ≡ length b.pkts
    room : b.npkts < limits.max_pkts_per_bunch
    done : All (WellSized limits) s.ofp
    kept : packets s.ofp ++ b.pkts ≡ map pkt_of seen
    bunches : s.bunches ≡ length s.ofp
    few : length s.ofp ≤ length seen
    in_order : s.last_time ≤ spec.time

  passes :
      (b : IoBunch) (spec : IoSpec) (last : ℕ)
      → b.npkts < limits.max_pkts_per_bunch
      → last ≤ spec.time
      → (ltb b.npkts bt_max_pkts && ((last == 0) || leb last spec.time)) ≡ true
  passes b spec last room le = ground arith

  add-Added :
      (seen : List IoSpec) (b : IoBunch) (s : IoStream) (spec : IoSpec)
      → Ready seen b spec s
      → Added seen spec (io_bunch_add s spec)
  unfolding io_bunch_add
  add-Added seen b s spec v =
      let b' : IoBunch = record b { npkts = add64 b.npkts 1; pkts = b.pkts ++ pkt_of spec ∷ [] } in
      let s' : IoStream = record s { cur = some b'; last_time = spec.time } in
      let one = length-append b.pkts (pkt_of spec ∷ []) in
      (
        b',
        s',
        rw (v.cur, passes b spec s.last_time v.room v.in_order, io_bunch_add) refl,
        record {
          cur = refl;
          sized = record {
            counted = omega (arith, v.counted, v.room, one);
            some_pkt = omega (arith, v.room);
            bound = omega (arith, v.room);
          };
          done = v.done;
          kept =
              sym (append_assoc (packets s.ofp) b.pkts (pkt_of spec ∷ []))
              ∙ (ap (λ k. k ++ pkt_of spec ∷ []) v.kept ∙ sym (map-append seen spec));
          bunches = v.bunches;
          few = omega (arith, v.few, length-append seen (spec ∷ []));
          last_time = refl;
        },
      )

  -- A new bunch for the IO, when all bunches so far have been written
  pub start-Added :
      (seen : List IoSpec) (s : IoStream) (spec : IoSpec)
      → Flushed limits seen s
      → s.last_time ≤ spec.time
      → Added seen spec (io_bunch_add (io_bunch_create s spec.time) spec)
  unfolding io_bunch_create
  start-Added seen s spec v le = add-Added seen _ (io_bunch_create s spec.time) spec (record {
    cur = refl;
    counted = refl;
    room = pos;
    done = v.done;
    kept = append-nil (packets s.ofp) ∙ v.kept;
    bunches = v.bunches;
    few = v.few;
    in_order = le;
  })

  pub stream_flush-Flushed :
      (seen : List IoSpec) (b : IoBunch) (last : ℕ) (s : IoStream)
      → length seen < 2 ^ 64
      → Building limits seen b last s
      → (s' : IoStream) × (stream_flush s ≡ some s')
        × Flushed limits seen s'
        × (s'.last_time ≡ last)
        × (length s'.ofp ≡ suc s.bunches)
  unfolding stream_flush
  stream_flush-Flushed seen b last s lt v = (
    record s { ofp = s.ofp ++ b ∷ []; bunches = add64 s.bunches 1; pkts = add64 s.pkts b.npkts },
    ground (arith, v.cur, not_zero, small),
    record {
      done = All-append (WellSized limits) s.ofp b v.done v.sized;
      kept = packets-append s.ofp b ∙ v.kept;
      bunches = omega (arith, v.bunches, v.few, lt, one);
      few = omega (arith, v.few, one);
    },
    v.last_time,
    omega (arith, v.bunches, one),
  )
    where
      one : length (s.ofp ++ b ∷ []) ≡ length s.ofp + 1
      one = length-append s.ofp (b ∷ [])

      not_zero : (b.npkts == 0) ≡ false
      not_zero = ground (arith, v.sized.some_pkt)

      small : leb b.npkts bt_max_pkts ≡ true
      small = ground (arith, v.sized.bound)

  pub stream_add_io-Added :
      (seen : List IoSpec) (b : IoBunch) (last : ℕ) (s : IoStream) (spec : IoSpec)
      → length seen < 2 ^ 64
      → Building limits seen b last s
      → last ≤ spec.time
      → Added seen spec (stream_add_io limits s spec)
  unfolding stream_add_io bunch_done
  stream_add_io-Added seen b last s spec lt v le = elim (Bool-cases (bunch_done limits s b spec)) [
    | inl full ↦
        let (s', e, f, l, n) = stream_flush-Flushed seen b last s lt v in
        rw (v.cur, full, e, stream_add_io) (start-Added seen s' spec f (omega (arith, l, le)))
    | inr roomy ↦
        rw (v.cur, roomy, stream_add_io)
          (add-Added seen b s spec (record {
            cur = v.cur;
            counted = v.sized.counted;
            room = ground (arith, roomy);
            done = v.done;
            kept = v.kept;
            bunches = v.bunches;
            few = omega (arith, v.few);
            in_order = omega (arith, v.last_time, le);
          }))
  ]
