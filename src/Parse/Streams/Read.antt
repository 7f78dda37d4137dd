-- ===== src/Parse/Streams/Read.antt =====
-- What ms_prime reads: batch after batch, the traces of the file up to its first bad record.
use blktrace.Common.{
  ℕ, zero, suc, ◌+◌, ◌<◌, ◌≤◌, ◌≡◌, ◌≢◌, refl, ap, sym, ◌∙◌, Bool, Option, none, some, List, [],
  ◌∷◌, ◌++◌, ◌⊎◌, inl, inr, arith, length, length-append, append_assoc,
}
use blktrace.Trace.Record.{BlkIoTrace}
use blktrace.Parse.Streams.{
  File, Verdict, bad, foreign, notify, trace, judge, detect, Reader, saw_notify, saw_time, MsStream,
  prime_loop, ms_prime,
}

pub Verdict-cases :
    (v : Verdict)
    → (v ≡ bad)
      ⊎ (v ≡ foreign)
      ⊎ ((t : BlkIoTrace) × (v ≡ notify t))
      ⊎ ((t : BlkIoTrace) × (v ≡ trace t))
Verdict-cases bad = inl refl
Verdict-cases foreign = inr (inl refl)
Verdict-cases (notify t) = inr (inr (inl (t, refl)))
Verdict-cases (trace t) = inr (inr (inr (t, refl)))

module _ (b : Bool) (cpu : ℕ) where
  -- The traces of a file, in its order, up to the first bad record.
  unfoldable pub accepts : File → List BlkIoTrace
  accepts [] = []
  accepts (x ∷ file) = elim (judge (some b) cpu x) [
    | bad ↦ []
    | foreign ↦ accepts file
    | notify t ↦ accepts file
    | trace t ↦ t ∷ accepts file
  ]

  -- No record of the file belongs to another CPU.
  abbrev pub NoForeign : File → Type 0
  NoForeign [] = Unit {0}
  NoForeign (x ∷ file) = (judge (some b) cpu x ≢ foreign) × NoForeign file

  abbrev pub unread : Option File → List BlkIoTrace
  unread none = []
  unread (some file) = accepts file

  abbrev pub OwnRest : Option File → Type 0
  OwnRest none = Unit {0}
  OwnRest (some file) = NoForeign file

  -- What a run of the loop has done.
  pub record Primed (left : ℕ) (queue : List BlkIoTrace) (file : File) (ndone : ℕ)
      (out : Reader × List BlkIoTrace × Option File × ℕ) : Type 0 where
    pub native : out.0.native ≡ some b
    pub kept : out.1 ++ unread out.2 ≡ queue ++ accepts file
    pub counted : out.3 + length queue ≡ ndone + length out.1
    pub grown : ndone ≤ out.3
    pub own : OwnRest out.2
    pub stuck : 0 < left → out.3 ≡ ndone → accepts file ≡ []

  module _ (pdi : ℕ) where
    -- One round of the loop, by the verdict on the record.
    module _ (left : ℕ) (r : Reader) (queue : List BlkIoTrace) (x : BlkIoTrace × Bool) (file : File)
        (ndone : ℕ) (d : detect r.native x.0 ≡ some (some b)) where
      prime_loop_bad :
          judge (some b) cpu x ≡ bad
          → prime_loop pdi cpu (suc left) r queue (x ∷ file) ndone
            ≡ (record r { native = some b }, queue, none, ndone)
      unfolding prime_loop
      prime_loop_bad v = rw (d, v, prime_loop)

      prime_loop-notify :
          (t : BlkIoTrace)
          → judge (some b) cpu x ≡ notify t
          → prime_loop pdi cpu (suc left) r queue (x ∷ file) ndone
            ≡ prime_loop pdi cpu
                (suc left)
                (saw_notify (record r { native = some b }) t)
                queue
                file
                ndone
      unfolding prime_loop
      prime_loop-notify t v = rw (d, v, prime_loop)

      prime_loop_trace :
          (t : BlkIoTrace)
          → judge (some b) cpu x ≡ trace t
          → prime_loop pdi cpu (suc left) r queue (x ∷ file) ndone
            ≡ prime_loop pdi cpu left
                (saw_time (record r { native = some b }) pdi t)
                (queue ++ t ∷ [])
                file
                (ndone + 1)
      unfolding prime_loop
      prime_loop_trace t v = rw (d, v, prime_loop)

    accepts_bad :
        (x : BlkIoTrace × Bool) (file : File) → judge (some b) cpu x ≡ bad → accepts (x ∷ file) ≡ []
    unfolding accepts
    accepts_bad x file v = rw (v, accepts)

    accepts-notify :
        (x : BlkIoTrace × Bool) (file : File) (t : BlkIoTrace)
        → judge (some b) cpu x ≡ notify t
        → accepts (x ∷ file) ≡ accepts file
    unfolding accepts
    accepts-notify x file t v = rw (v, accepts)

    accepts_trace :
        (x : BlkIoTrace × Bool) (file : File) (t : BlkIoTrace)
        → judge (some b) cpu x ≡ trace t
        → accepts (x ∷ file) ≡ t ∷ accepts file
    unfolding accepts
    accepts_trace x file t v = rw (v, accepts)

    native-saw_time : (r : Reader) (t : BlkIoTrace) → (saw_time r pdi t).native ≡ r.native
    unfolding saw_time
    native-saw_time r t = ground arith

    native-saw_notify : (r : Reader) (t : BlkIoTrace) → (saw_notify r t).native ≡ r.native
    unfolding saw_notify
    native-saw_notify r t = refl

    detect-native :
        (r : Reader) (bit : BlkIoTrace) → r.native ≡ some b → detect r.native bit ≡ some (some b)
    unfolding detect
    detect-native r bit e = rw e

    module _ (queue : List BlkIoTrace) (x : BlkIoTrace × Bool) (file : File) (ndone : ℕ)
        (out : Reader × List BlkIoTrace × Option File × ℕ) where
      Primed-bad :
          accepts (x ∷ file) ≡ []
          → out ≡ (out.0, queue, none, ndone)
          → out.0.native ≡ some b
          → (left : ℕ) → Primed left queue (x ∷ file) ndone out
      Primed-bad e o n left = record {
        native = n;
        kept = rw o (ap (◌++◌ queue) (sym e));
        counted = rw o (omega arith);
        grown = rw o (omega arith);
        own = rw o tt;
        stuck = λ h p. e;
      }

      Primed-notify :
          accepts (x ∷ file) ≡ accepts file
          → (left : ℕ) → Primed left queue file ndone out
          → Primed left queue (x ∷ file) ndone out
      Primed-notify e left p = record {
        native = p.native;
        kept = p.kept ∙ ap (◌++◌ queue) (sym e);
        counted = p.counted;
        grown = p.grown;
        own = p.own;
        stuck = λ h q. e ∙ p.stuck h q;
      }

      Primed-trace :
          (t : BlkIoTrace)
          → accepts (x ∷ file) ≡ t ∷ accepts file
          → (left : ℕ) → Primed left (queue ++ t ∷ []) file (ndone + 1) out
          → Primed (suc left) queue (x ∷ file) ndone out
      Primed-trace t e left p = record {
        native = p.native;
        kept = p.kept ∙ append_assoc queue (t ∷ []) (accepts file) ∙ ap (◌++◌ queue) (sym e);
        counted = omega (arith, p.counted, length-append queue (t ∷ []));
        grown = omega (arith, p.grown);
        own = p.own;
        stuck = λ h q. absurd (omega (arith, p.grown));
      }

    prime_loop-Primed :
        (left : ℕ) (r : Reader) (queue : List BlkIoTrace) (file : File) (ndone : ℕ)
        → r.native ≡ some b
        → NoForeign file
        → Primed left queue file ndone (prime_loop pdi cpu left r queue file ndone)
    unfolding prime_loop accepts
    prime_loop-Primed zero r queue file ndone e own = record {
      native = e;
      kept = refl;
      counted = refl;
      grown = omega arith;
      own = own;
      stuck = λ h p. absurd (omega arith);
    }
    prime_loop-Primed (suc left) r queue [] ndone e own = record {
      native = e;
      kept = refl;
      counted = refl;
      grown = omega arith;
      own = tt;
      stuck = λ h p. refl;
    }
    prime_loop-Primed (suc left) r queue (x ∷ file) ndone e own =
        let d = detect-native r x.0 e in
        elim (Verdict-cases (judge (some b) cpu x)) [
          | inl v ↦
              rw (prime_loop_bad left r queue x file ndone d v)
                (Primed-bad queue x file ndone _ (accepts_bad x file v) refl refl (suc left))
          | inr (inl v) ↦ absurd (own.0 v)
          | inr (inr (inl (t, v))) ↦ rw (prime_loop-notify left r queue x file ndone d t v) (
              Primed-notify queue x file ndone _ (accepts-notify x file t v) (suc left) (
                prime_loop-Primed (suc left) (saw_notify (record r { native = some b }) t) queue
                  file ndone (native-saw_notify (record r { native = some b }) t) own.1))
          | inr (inr (inr (t, v))) ↦ rw (prime_loop_trace left r queue x file ndone d t v) (
              Primed-trace queue x file ndone _ t (accepts_trace x file t v) left (
                prime_loop-Primed left (saw_time (record r { native = some b }) pdi t)
                  (queue ++ t ∷ []) file (ndone + 1)
                  (native-saw_time (record r { native = some b }) t) own.1))
        ]

-- What is still to come from a stream: its queue and the unread part of its file.
abbrev pub pending : Bool → MsStream → List BlkIoTrace
pending b msp = msp.first ++ unread b msp.cpu msp.fd

-- What a call of ms_prime has done to a stream.
pub record Refilled (b : Bool) (rb_batch : ℕ) (msp : MsStream) (out : Reader × MsStream × ℕ)
    : Type 0 where
  pub native : out.0.native ≡ some b
  pub same_cpu : out.1.cpu ≡ msp.cpu
  pub kept : pending b out.1 ≡ pending b msp
  pub counted : out.2 + length msp.first ≡ length out.1.first
  pub own : OwnRest b out.1.cpu out.1.fd
  pub stuck : out.2 ≡ 0 → unread b msp.cpu msp.fd ≡ []

ms_prime-parts :
    (b : Bool) (rb_batch : ℕ) (r : Reader) (pdi cpu : ℕ) (first : List BlkIoTrace)
    (fd : Option File)
    → r.native ≡ some b
    → 0 < rb_batch
    → OwnRest b cpu fd
    → let msp : MsStream = record { pdi = pdi; cpu = cpu; first = first; fd = fd } in
      Refilled b rb_batch msp (ms_prime rb_batch r msp)
unfolding ms_prime
ms_prime-parts b rb_batch r pdi cpu first none e pos own = record {
  native = e;
  same_cpu = refl;
  kept = refl;
  counted = omega arith;
  own = own;
  stuck = λ h. refl;
}
ms_prime-parts b rb_batch r pdi cpu first (some file) e pos own =
    let p = prime_loop-Primed b cpu pdi rb_batch r first file 0 e own in
    record {
      native = p.native;
      same_cpu = refl;
      kept = p.kept;
      counted = omega (arith, p.counted);
      own = p.own;
      stuck = λ h. p.stuck pos h;
    }

-- ms_prime, once the byte order is known, with rb_batch positive, on a file with no record of
-- another CPU: it moves traces from the file to the end of the queue, in order and without loss,
-- and returns how many; it returns 0 only if nothing is left to read.
pub ms_prime-Refilled :
    (b : Bool) (rb_batch : ℕ) (r : Reader) (msp : MsStream)
    → r.native ≡ some b
    → 0 < rb_batch
    → OwnRest b msp.cpu msp.fd
    → Refilled b rb_batch msp (ms_prime rb_batch r msp)
ms_prime-Refilled b rb_batch r msp e pos own =
    ms_prime-parts b rb_batch r msp.pdi msp.cpu msp.first msp.fd e pos own
