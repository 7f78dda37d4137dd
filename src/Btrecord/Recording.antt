-- ===== src/Btrecord/Recording.antt =====
-- What btrecord writes: every IO once, in order, in bunches of limited size.
use blktrace.Common.{
  ℕ, zero, suc, ◌+◌, ◌-◌, ◌^◌, ◌<◌, ◌≤◌, ◌≡◌, refl, ap, ◌∙◌, sym, subst, Bool, none, some, List, [],
  ◌∷◌, ◌++◌, map, append_assoc, append-nil, ◌⊎◌, inl, inr, arith, length, length-append, All,
}
use blktrace.Parse.Streams.{File}
use blktrace.Btrecord.{
  IoSpec, IoBunch, IoFileHdr, IfileInfo, IoStream, Limits, next_io, stream_flush, stream_add_io,
  stream_open, open_input, stream_close, process_loop, process_file,
}
use blktrace.Btrecord.Input.{ios, AllOrder, Learns, Reads, at_end, at_io, next_io-Reads}
use blktrace.Btrecord.Bunches.{
  pkt_of, packets, WellSized, Building, Flushed, Added, start-Added, stream_flush-Flushed,
  stream_add_io-Added,
}

module _ (limits : Limits) (pos : 1 ≤ limits.max_pkts_per_bunch)
    (fit : limits.max_pkts_per_bunch ≤ 512) where
  -- The IOs are in the order of time, from a time on.
  abbrev pub InOrder : ℕ → List IoSpec → Type 0
  InOrder last [] = Unit {0}
  InOrder last (spec ∷ specs) = (last ≤ spec.time) × InOrder spec.time specs

  -- What is written for the IOs `specs`: their packets in order, in bunches that are neither empty nor
  -- larger than the limit. The header counts all bunches but the last one.
  pub record Recorded (specs : List IoSpec) (hdr : IoFileHdr) (bunches : List IoBunch)
      : Type 0 where
    pub kept : packets bunches ≡ map pkt_of specs
    pub sized : All (WellSized limits) bunches
    pub nbunches : hdr.nbunches ≡ length bunches - 1

  -- No IO yet
  record Idle (seen : List IoSpec) (s : IoStream) : Type 0 where
    cur : s.cur ≡ none
    flushed : Flushed limits seen s
    empty : s.ofp ≡ []
    last_time : s.last_time ≡ 0

  -- The state before a turn of the loop
  Turn : List IoSpec → ℕ → IoStream → Type 0
  Turn seen last s = Idle seen s ⊎ ((b : IoBunch) × Building limits seen b last s)

  from_later : (m n : ℕ) (l : List IoSpec) → m ≤ n → InOrder n l → All (λ s. m ≤ s.time) l
  from_later m n [] h o = tt
  from_later m n (x ∷ l) h o = (omega (arith, o.0), from_later m x.time l (omega (arith, o.0)) o.1)

  stream_close-Recorded :
      (seen : List IoSpec) (last : ℕ) (iip : IfileInfo) (s : IoStream)
      → length seen < 2 ^ 64
      → Turn seen last s
      → (hdr : IoFileHdr) × (bunches : List IoBunch) × (stream_close iip s ≡ some (hdr, bunches))
        × Recorded seen hdr bunches
  unfolding Turn stream_close stream_flush
  stream_close-Recorded seen last iip s lt (inl v) = (
    record { genesis = iip.genesis; nbunches = s.bunches; total_pkts = s.pkts },
    s.ofp,
    ground (arith, v.cur),
    record {
      kept = v.flushed.kept;
      sized = v.flushed.done;
      nbunches = omega (arith, v.flushed.bunches, ap length v.empty);
    },
  )
  stream_close-Recorded seen last iip s lt (inr (b, v)) =
      let (s', e, f, l, n) = stream_flush-Flushed limits pos fit seen b last s lt v in
      (
        record { genesis = iip.genesis; nbunches = s.bunches; total_pkts = s.pkts },
        s'.ofp,
        rw (e, stream_close) refl,
        record { kept = f.kept; sized = f.done; nbunches = omega (arith, n) },
      )

  add_any :
      (seen : List IoSpec) (last : ℕ) (s : IoStream) (spec : IoSpec)
      → length seen < 2 ^ 64
      → Turn seen last s
      → last ≤ spec.time
      → Added limits pos fit seen spec (stream_add_io limits s spec)
  unfolding Turn stream_add_io
  add_any seen last s spec lt (inl v) le =
      rw (v.cur, stream_add_io)
        (start-Added limits pos fit seen s spec v.flushed (omega (arith, v.last_time)))
  add_any seen last s spec lt (inr (b, v)) le =
      stream_add_io-Added limits pos fit seen b last s spec lt v le

  process_loop-Recorded :
      (b : Bool) (fuel : ℕ) (seen : List IoSpec) (last : ℕ) (iip : IfileInfo) (s : IoStream)
      → Learns b iip.data_is_native
      → AllOrder b iip.rest
      → iip.genesis ≤ last
      → InOrder last (ios b iip.rest)
      → length seen + length (ios b iip.rest) < 2 ^ 64
      → length iip.rest < fuel
      → Turn seen last s
      → (hdr : IoFileHdr) × (bunches : List IoBunch) × (process_loop fuel limits iip s
          ≡ some (hdr, bunches))
        × Recorded (seen ++ ios b iip.rest) hdr bunches
  unfolding process_loop Turn
  process_loop-Recorded b zero seen last iip s l o g order lt f v = absurd (omega (arith, f))
  process_loop-Recorded b (suc fuel) seen last iip s l o g order lt f v =
      go (λ seen' last' iip' s'. process_loop-Recorded b fuel seen' last' iip' s')
        (next_io-Reads b iip l o (from_later iip.genesis last (ios b iip.rest) g order))
    where
      go :
          ((seen' : List IoSpec) (last' : ℕ) (iip' : IfileInfo) (s' : IoStream)
            → Learns b iip'.data_is_native
            → AllOrder b iip'.rest
            → iip'.genesis ≤ last'
            → InOrder last' (ios b iip'.rest)
            → length seen' + length (ios b iip'.rest) < 2 ^ 64
            → length iip'.rest < fuel
            → Turn seen' last' s'
            → (hdr : IoFileHdr) × (bunches : List IoBunch) × (process_loop fuel limits iip' s'
                ≡ some (hdr, bunches))
              × Recorded (seen' ++ ios b iip'.rest) hdr bunches)
          → Reads b iip.rest (next_io iip)
          → (hdr : IoFileHdr) × (bunches : List IoBunch) × (process_loop (suc fuel) limits iip s
              ≡ some (hdr, bunches))
            × Recorded (seen ++ ios b iip.rest) hdr bunches
      go later (at_end e n) =
          let (hdr, bunches, h, r) = stream_close-Recorded seen last iip s (omega (arith, lt)) v in
          (
            hdr,
            bunches,
            rw (e, process_loop) h,
            subst (λ k. Recorded (seen ++ k) hdr bunches) (sym n)
                (subst (λ k. Recorded k hdr bunches) (sym (append-nil seen)) r),
          )
      go later (at_io spec iip' e n l' o' sh g') =
          let order' = subst (InOrder last) n order in
          let count = ap length n in
          let (b1, s1, h1, v1) = add_any seen last s spec (omega (arith, lt)) v order'.0 in
          let (hdr, bunches, h, r) =
            later (seen ++ spec ∷ []) spec.time iip' s1 l' o' g' order'.1
              (omega (arith, lt, count, length-append seen (spec ∷ []))) (omega (arith, f, sh))
              (inr (b1, v1)) in
          (
            hdr,
            bunches,
            rw (e, h1, process_loop) h,
            subst (λ k. Recorded k hdr bunches)
                (append_assoc seen (spec ∷ []) (ios b iip'.rest) ∙ ap (λ k. seen ++ k) (sym n)) r,
          )

  -- btrecord on a file of one byte order, whose IOs are in the order of time, with limits as handle_args
  -- admits them: the program comes to its end without a failed assert, and it writes the packets of all
  -- matching traces, in order, in bunches of at least one packet and at most the limit, whose headers
  -- count them; but the header of the file counts one bunch less than were written, if there is any.
  pub process_file-Recorded :
      (b : Bool) (file : File)
      → AllOrder b file
      → InOrder 0 (ios b file)
      → length (ios b file) < 2 ^ 64
      → (hdr : IoFileHdr) × (bunches : List IoBunch) × (process_file limits file
          ≡ some (hdr, bunches))
        × Recorded (ios b file) hdr bunches
  unfolding process_file Turn packets
  process_file-Recorded b file o order lt =
      process_loop-Recorded b (suc (length file)) [] 0 (open_input file) stream_open (inl refl) o
        (omega arith) order (omega (arith, lt)) (omega arith)
        (inl (record {
          cur = refl;
          flushed = record { done = tt; kept = refl; bunches = refl; few = omega arith };
          empty = refl;
          last_time = refl;
        }))
