-- ===== src/Btrecord/Input.antt =====
-- What next_io reads: the matching traces of the file, in its order.
use blktrace.Common.{
  subst, add64, ltb, ℕ, ◌<◌, ◌≤◌, ◌≡◌, refl, ◌∙◌, Bool, false, not, ◌&&◌, none, some, List, [], ◌∷◌,
  if◌then◌else◌, ◌==◌, ◌⊎◌, inl, inr, arith, length, All, Bool-cases,
}
use blktrace.Trace.Record.{BlkIoTrace}
use blktrace.Trace.Header.{Native, trace_to_cpu, check_data_endianness}
use blktrace.Parse.Streams.{File}
use blktrace.Btrecord.{
  IoSpec, IfileInfo, Read, end, io, match, learn_order, spec_of, note_genesis, next_from, next_io,
}

-- The IOs of a file in a known byte order, up to the first record that is cut short.
unfoldable pub ios : Bool → File → List IoSpec
unfolding match spec_of trace_to_cpu
ios b [] = []
ios b ((t, whole) ∷ rest) =
    let t' = trace_to_cpu (some b) t in
    let later = ios b rest in
    if not (t'.pdu_len == 0) && not whole
    then []
    else if not (match t'.action)
    then later
    else spec_of t' ∷ later

-- Every record has the magic number of the one byte order.
abbrev pub AllOrder : Bool → File → Type 0
AllOrder b = All (λ x. check_data_endianness x.0.magic ≡ some b)

-- The byte order is not known yet, or it is this one.
abbrev pub Learns : Bool → Native → Type 0
Learns b native = (native ≡ none) ⊎ (native ≡ some b)

-- What a call of next_io gives, on a file whose IOs are not before the genesis.
pub data Reads (b : Bool) (file : File) (out : Read) : Type 0 where
  at_end : out ≡ end → ios b file ≡ [] → Reads b file out
  at_io :
      (spec : IoSpec) (iip : IfileInfo)
      → out ≡ io spec iip
      → ios b file ≡ spec ∷ ios b iip.rest
      → Learns b iip.data_is_native
      → AllOrder b iip.rest
      → length iip.rest < length file
      → iip.genesis ≤ spec.time
      → Reads b file out

learned :
    (b : Bool) (native : Native) (magic : ℕ)
    → Learns b native
    → check_data_endianness magic ≡ some b
    → learn_order native magic ≡ some b
unfolding learn_order
learned b native magic (inl e) h = rw (e, learn_order) h
learned b native magic (inr e) h = rw (e, learn_order) refl

widen :
    (b : Bool) (x : BlkIoTrace × Bool) (rest : File) (out : Read)
    → ios b (x ∷ rest) ≡ ios b rest
    → Reads b rest out
    → Reads b (x ∷ rest) out
widen b x rest out e (at_end h k) = at_end h (e ∙ k)
widen b x rest out e (at_io spec iip h k l o n g) =
    at_io spec iip h (e ∙ k) l o (omega (arith, n)) g

-- The end of next_io, on an IO that is not before the genesis
noted :
    (b : Bool) (file : File) (spec : IoSpec) (iip : IfileInfo)
    → ios b file ≡ spec ∷ ios b iip.rest
    → iip.data_is_native ≡ some b
    → AllOrder b iip.rest
    → length iip.rest < length file
    → iip.genesis ≤ spec.time
    → Reads b file (note_genesis spec iip)
unfolding note_genesis
noted b file spec iip e l o n g = elim (Bool-cases (iip.genesis == 0)) [
  | inl z ↦
      at_io spec (record iip { genesis = spec.time }) (rw (z, note_genesis) refl) e (inr l) o n
        (omega arith)
  | inr z ↦
      at_io spec iip (rw (z, ltb_false spec.time iip.genesis g, note_genesis) refl) e (inr l) o n g
]
  where
    ltb_false : (a c : ℕ) → c ≤ a → ltb a c ≡ false
    ltb_false a c h = ground arith

next_from-Reads :
    (b : Bool) (native : Native) (tpkts genesis : ℕ) (file : File)
    → Learns b native
    → AllOrder b file
    → All (λ s. genesis ≤ s.time) (ios b file)
    → Reads b file (next_from native tpkts genesis file)
unfolding next_from ios
next_from-Reads b native tpkts genesis [] l o g = at_end refl refl
next_from-Reads b native tpkts genesis ((t, whole) ∷ rest) l o g =
    let t' = trace_to_cpu (some b) t in
    elim (Bool-cases (not (t'.pdu_len == 0) && not whole)) [
      | inl cut ↦
          at_end (rw (learned b native t.magic l o.0, cut, next_from) refl) (rw (cut, ios) refl)
      | inr whole' ↦ elim (Bool-cases (match t'.action)) [
        | inr skip ↦
            let e : ios b ((t, whole) ∷ rest) ≡ ios b rest = rw (whole', skip, ios) refl in
            rw (learned b native t.magic l o.0, whole', skip, next_from)
              (widen b (t, whole) rest (next_from (some b) (add64 tpkts 1) genesis rest) e
                (next_from-Reads b (some b) (add64 tpkts 1) genesis rest (inr refl) o.1
                  (subst (All (λ s. genesis ≤ s.time)) e g)))
        | inl take ↦
            let e : ios b ((t, whole) ∷ rest) ≡ spec_of t' ∷ ios b rest =
              rw (whole', take, ios) refl in
            rw (learned b native t.magic l o.0, whole', take, next_from)
              (noted b ((t, whole) ∷ rest) (spec_of t')
                (record {
                  data_is_native = some b;
                  tpkts = add64 tpkts 1;
                  genesis = genesis;
                  rest = rest;
                })
                e refl o.1 (omega arith) (subst (All (λ s. genesis ≤ s.time)) e g).0)
      ]
    ]

pub next_io-Reads :
    (b : Bool) (iip : IfileInfo)
    → Learns b iip.data_is_native
    → AllOrder b iip.rest
    → All (λ s. iip.genesis ≤ s.time) (ios b iip.rest)
    → Reads b iip.rest (next_io iip)
unfolding next_io
next_io-Reads b iip l o g =
    next_from-Reads b iip.data_is_native iip.tpkts iip.genesis iip.rest l o g
