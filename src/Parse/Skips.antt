-- ===== src/Parse/Skips.antt =====
-- The skip lists of blkparse.c: insert_skip, remove_sip, check_current_skips, collect_pdi_skips.
-- A list holds the ranges of sequence numbers that a CPU has missed. It is doubly linked in the
-- source and walked from skips_tail by `prev`; here it is a list in that order, tail first, and
-- unlinking a node leaves out its entry. Bounds are unsigned long and wrap.
pub mod Laws
use blktrace.Common.{
  ℕ, zero, suc, ◌+◌, ◌-◌, ◌%◌, ◌^◌, Bool, true, false, ◌&&◌, Option, none, some, List, [], ◌∷◌,
  add64, sub64, if◌then◌else◌, ◌==◌, leb,
}

-- struct skip_info
pub record SkipInfo : Type 0 where
  pub start : ℕ
  pub end : ℕ

-- One round of the loop of insert_skip: `none` is that the entry is not next to the range.
unfoldable pub extend_skip : SkipInfo → ℕ → ℕ → Option SkipInfo
extend_skip sip start end =
    if end == sub64 sip.start 1
    then some (record sip { start = start })
    else if start == add64 sip.end 1
    then some (record sip { end = end })
    else none

-- What a round leads to: the entry replaced, or the rest of the walk.
abbrev pub or_walk :
    Option SkipInfo → SkipInfo → List SkipInfo → Option (List SkipInfo) → Option (List SkipInfo)
or_walk (some new) sip rest walked = some (new ∷ rest)
or_walk none sip rest none = none
or_walk none sip rest (some l) = some (sip ∷ l)

unfoldable pub extend_skips : List SkipInfo → ℕ → ℕ → Option (List SkipInfo)
unfolding extend_skip
extend_skips [] start end = none
extend_skips (sip ∷ rest) start end =
    or_walk (extend_skip sip start end) sip rest (extend_skips rest start end)

abbrev pub or_append : Option (List SkipInfo) → List SkipInfo → SkipInfo → List SkipInfo
or_append (some l) skips sip = l
or_append none skips sip = sip ∷ skips

-- insert_skip: the new entry goes to the tail.
unfoldable pub insert_skip : List SkipInfo → ℕ → ℕ → List SkipInfo
unfolding extend_skips
insert_skip skips start end =
    or_append (extend_skips skips start end) skips (record { start = start; end = end })

-- IN_SKIP(sip, seq)
unfoldable pub in_skip : SkipInfo → ℕ → Bool
in_skip sip seq = leb sip.start seq && leb seq sip.end

-- How the walk of check_current_skips ends: no entry holds the number; one was cut or removed; or
-- one was cut short at the number, and insert_skip is still to be called.
pub data Walk : Type 0 where
  missing : Walk
  finished : List SkipInfo → Walk
  cut_short : List SkipInfo → Walk

abbrev pub after_entry : SkipInfo → Walk → Walk
after_entry sip missing = missing
after_entry sip (finished l) = finished (sip ∷ l)
after_entry sip (cut_short l) = cut_short (sip ∷ l)

-- The entry that holds the number. Leaving it out is remove_sip.
unfoldable pub hit_skip : SkipInfo → List SkipInfo → ℕ → Walk
hit_skip sip rest seq =
    if sip.start == seq
    then (if sip.end == seq
        then finished rest
        else finished (record sip { start = add64 sip.start 1 } ∷ rest))
    else if sip.end == seq
    then finished (record sip { end = sub64 sip.end 1 } ∷ rest)
    else cut_short (record sip { end = sub64 seq 1 } ∷ rest)

unfoldable pub walk_skips : List SkipInfo → ℕ → Walk
unfolding in_skip hit_skip
walk_skips [] seq = missing
walk_skips (sip ∷ rest) seq =
    if in_skip sip seq then hit_skip sip rest seq else after_entry sip (walk_skips rest seq)

-- In the last case the source sets sip->end to seq - 1 and then calls
-- insert_skip(pci, seq + 1, sip->end), with the new end.
unfoldable pub end_walk : List SkipInfo → ℕ → Walk → Bool × List SkipInfo
unfolding insert_skip
end_walk skips seq missing = (false, skips)
end_walk skips seq (finished l) = (true, l)
end_walk skips seq (cut_short l) = (true, insert_skip l (add64 seq 1) (sub64 seq 1))

unfoldable pub check_current_skips : List SkipInfo → ℕ → Bool × List SkipInfo
unfolding walk_skips end_walk
check_current_skips skips seq = end_walk skips seq (walk_skips skips seq)

-- The inner loop of collect_pdi_skips: the counters skips and seq_skips of the device.
unfoldable pub collect_skips : ℕ × ℕ → List SkipInfo → ℕ × ℕ
collect_skips acc [] = acc
collect_skips (skips, seq_skips) (sip ∷ rest) =
    collect_skips (add64 skips 1, add64 seq_skips (add64 (sub64 sip.end sip.start) 1)) rest
