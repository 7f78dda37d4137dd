-- ===== src/Parse/Handle/Window.antt =====
-- That handle stops at the first trace past the stopwatch loses nothing.
use blktrace.Common.{
  ℕ, ◌+◌, ◌-◌, ◌/◌, ◌^◌, ◌<◌, ◌≤◌, ◌≡◌, refl, ◌&&◌, List, [], ◌∷◌, if◌then◌else◌, leb, ltb, arith,
  All, Bool-cases, inl, inr, shares_bit, has_bits-shift,
}
use blktrace.Trace.Record.{BlkIoTrace}
use blktrace.Parse.Streams.Merge.{TimesFrom, InTimeOrder}
use blktrace.Parse.Handle.{Stopwatch, rebase, is_shown, handle, handle_loop}

-- The traces that were made from stopwatch_start to stopwatch_end after genesis_time, both included,
-- and that have one of the 16 categories of act_mask in the upper half of the action; with their times
-- from genesis_time on.
unfoldable pub window : Stopwatch → List BlkIoTrace → List BlkIoTrace
window w [] = []
window w (t ∷ ts) =
    let rest = window w ts in
    if leb (w.genesis_time + w.stopwatch_start) t.time
      && leb t.time (w.genesis_time + w.stopwatch_end)
      && shares_bit 16 (t.action / 2 ^ 16) w.act_mask
    then record t { time = t.time - w.genesis_time } ∷ rest
    else rest

-- The time of a trace is not before the first one of all; it is a word of 64 bits, and the action of 32.
abbrev pub Since : ℕ → BlkIoTrace → Type 0
Since genesis t = (genesis ≤ t.time) × (t.time < 2 ^ 64) × (t.action < 2 ^ 32)

late :
    (w : Stopwatch) (m : ℕ) (l : List BlkIoTrace)
    → w.genesis_time + w.stopwatch_end < m
    → TimesFrom m l
    → All (Since w.genesis_time) l
    → window w l ≡ []
unfolding window
late w m [] h f s = refl
late w m (t ∷ l) h f s = ground (arith, late w m l h f.1 s.1, f.0, s.0)

rebase_lem :
    (w : Stopwatch) (t : BlkIoTrace)
    → Since w.genesis_time t
    → rebase w t ≡ record t { time = t.time - w.genesis_time }
unfolding rebase
rebase_lem w t s = ground (arith, s.0, s.1)

-- The traces that do_file gives to dump_trace are, with their times counted from genesis_time, those
-- from stopwatch_start to stopwatch_end, both included, that have a category of act_mask, in their
-- order; for any traces in the order of time, from genesis_time on, with times of 64 and actions of 32
-- bits: stopping at the first one past the end loses none.
pub handle_loop-window :
    (w : Stopwatch) (l : List BlkIoTrace)
    → InTimeOrder l
    → All (Since w.genesis_time) l
    → handle_loop w l ≡ window w l
unfolding handle_loop window handle is_shown
handle_loop-window w [] o s = refl
handle_loop-window w (t ∷ l) o s =
    let mask = has_bits-shift t.action w.act_mask s.0.2 in
    elim (Bool-cases (ltb w.stopwatch_end (t.time - w.genesis_time))) [
      | inl e ↦
          let far : w.genesis_time + w.stopwatch_end < t.time = ground (arith, e, s.0) in
          rw (handle_loop, handle, rebase_lem w t s.0)
            (ground (arith, e, late w t.time l far o.0 s.1))
      | inr e ↦
          rw (handle_loop, handle, rebase_lem w t s.0)
            (ground (arith, e, mask, s.0.0, handle_loop-window w l o.1 s.1))
    ]
