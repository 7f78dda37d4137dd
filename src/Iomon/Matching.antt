-- ===== src/Iomon/Matching.antt =====
-- The matching of issues (D) and completions (C) in blkiomon.c: the hash of the traces that wait for
-- their other half, and the loop over the incoming traces. The memory of a trace is not modelled: a
-- chain holds the traces themselves.
pub mod Chains
pub mod Pending
pub mod Runs
pub mod Summary
pub mod Totals
use blktrace.Common.{
  ℕ, ◌+◌, ◌%◌, ◌≡◌, Bool, ◌&&◌, Option, none, some, List, [], ◌∷◌, if◌then◌else◌, ◌==◌, ltb,
  bit_and, has_bits,
}
use blktrace.Trace.Record.{BlkIoTrace}
use blktrace.Trace.Tc
use blktrace.Parse.RbTree.{RbOps}
use blktrace.Iomon.Devices.{Dstats, account_dstat, no_dstats}

-- TRACE_HASH_SIZE
abbrev pub trace_hash_size : ℕ
trace_hash_size = 128

-- action
unfoldable pub action : ℕ → ℕ
action a = bit_and a (Tc.act (Tc.write + Tc.read + Tc.fs + Tc.pc))

-- The statics of the file: thash, the statistics that gather, and the counters match and mismatch
-- (of type long, taken as plain numbers)
pub record Iomon : Type 0 where
  pub thash : ℕ → List BlkIoTrace
  pub dstats : Dstats
  pub matched : ℕ
  pub mismatched : ℕ

abbrev pub start : Iomon
start = record { thash = λ i. []; dstats = no_dstats; matched = 0; mismatched = 0 }

-- thash[i] = chain
unfoldable pub put_chain : (ℕ → List BlkIoTrace) → ℕ → List BlkIoTrace → ℕ → List BlkIoTrace
put_chain thash i chain j = if j == i then chain else thash j

unfoldable pub slot : BlkIoTrace → ℕ
slot bit = bit.sector % trace_hash_size

unfoldable pub store_trace : (ℕ → List BlkIoTrace) → BlkIoTrace → ℕ → List BlkIoTrace
unfolding slot put_chain
store_trace thash t = put_chain thash (slot t) (t ∷ thash (slot t))

-- The test of blkiomon_fetch_trace
unfoldable pub same_request : BlkIoTrace → BlkIoTrace → Bool
unfolding action
same_request bit t =
    t.device == bit.device && t.sector == bit.sector && action t.action == action bit.action

-- The loop of blkiomon_fetch_trace: the trace, and the chain without it
unfoldable pub fetch_from : BlkIoTrace → List BlkIoTrace → Option (BlkIoTrace × List BlkIoTrace)
unfolding same_request
fetch_from bit [] = none
fetch_from bit (t ∷ chain) =
    let rest = fetch_from bit chain in
    if same_request bit t
    then some (t, chain)
    else elim rest [ none ↦ none | some (found, left) ↦ some (found, t ∷ left) ]

unfoldable pub fetch_trace :
    (ℕ → List BlkIoTrace) → BlkIoTrace → Option (BlkIoTrace × (ℕ → List BlkIoTrace))
unfolding slot fetch_from put_chain
fetch_trace thash bit = elim (fetch_from bit (thash (slot bit))) [
  | none ↦ none
  | some (found, left) ↦ some (found, put_chain thash (slot bit) left)
]

-- A D trace and a C trace, in this order
unfoldable pub d_then_c : BlkIoTrace → BlkIoTrace → Bool
d_then_c t_old t_young =
    has_bits t_old.action (Tc.act Tc.issue) && has_bits t_young.action (Tc.act Tc.complete)

unfoldable pub older : BlkIoTrace → BlkIoTrace → BlkIoTrace
older t_stored t = if ltb t_stored.time t.time then t_stored else t

unfoldable pub younger : BlkIoTrace → BlkIoTrace → BlkIoTrace
younger t_stored t = if ltb t_stored.time t.time then t else t_stored

-- blkiomon_do_trace; `none` is the division by zero in blkiomon_account.
unfoldable pub do_trace : RbOps → BlkIoTrace → Iomon → Option Iomon
do_trace ops t m = elim (fetch_trace m.thash t) [
  | none ↦ some (record m { thash = store_trace m.thash t })
  | some (t_stored, thash) ↦
      let t_old = older t_stored t in
      let t_young = younger t_stored t in
      let accounted : Option Iomon = elim (account_dstat ops t_old t_young m.dstats) [
        | none ↦ none
        | some dstats ↦ some (record m { thash = thash; dstats = dstats; matched = m.matched + 1 })
      ] in
      if d_then_c t_old t_young
      then accounted
      else some (record m { thash = store_trace thash t_young; mismatched = m.mismatched + 1 })
]

-- The calls of blkiomon_do_trace for a sequence of traces
unfoldable pub do_traces : RbOps → List BlkIoTrace → Iomon → Option Iomon
do_traces ops [] m = some m
do_traces ops (t ∷ ts) m = elim (do_trace ops t m) [ none ↦ none | some m' ↦ do_traces ops ts m' ]
