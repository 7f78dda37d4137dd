-- ===== src/Btt/Seek.antt =====
-- btt/seek.c: the distances between requests, and how often each occurs. The files, the sum in doubles
-- and the seeks per second are left out.
pub mod Buckets
pub mod Counts
pub mod Modes
use blktrace.Common.{
  ℕ, ◌+◌, ◌-◌, ◌/◌, ◌^◌, Bool, ◌&&◌, ◌||◌, Option, none, some, List, [], ◌∷◌, ◌++◌, if◌then◌else◌,
  ◌==◌, leb, ltb,
}
use blktrace.Parse.RbTree.{Tree, null, node, RbOps, link, link_place}

-- A difference of two numbers of sectors, which are below 2 ^ 62
pub data Distance : Type 0 where
  forward : ℕ → Distance
  backward : ℕ → Distance

unfoldable pub minus : ℕ → ℕ → Distance
minus a b = if leb b a then forward (a - b) else backward (b - a)

-- llabs
abbrev pub llabs : Distance → ℕ
llabs (forward n) = n
llabs (backward n) = n

-- last_start and last_end of struct seeki
pub record Seeki : Type 0 where
  pub last_start : ℕ
  pub last_end : ℕ

-- BIT_END, of a sector and a number of bytes
abbrev pub bit_end : ℕ → ℕ → ℕ
bit_end sector bytes = sector + bytes / 2 ^ 9

-- seek_dist, with seek_absolute, for a request at a sector of a number of bytes
unfoldable pub seek_dist : Bool → Seeki → ℕ → ℕ → Distance × Seeki
unfolding minus
seek_dist seek_absolute sip sector bytes =
    let start = sector in
    let end = bit_end sector bytes in
    let sip' : Seeki = record { last_start = start; last_end = end } in
    if seek_absolute
    then (minus start sip.last_end, sip')
    else if (leb sip.last_start start && leb start sip.last_end)
        || (leb sip.last_start end && leb end sip.last_end)
    then (forward 0, sip')
    else if ltb sip.last_end start
    then (minus start sip.last_end, sip')
    else (minus start sip.last_start, sip')

-- struct seek_bkt, for fewer than 2 ^ 31 seeks, which the int nseeks counts
pub record SeekBkt : Type 0 where
  pub sectors : ℕ
  pub nseeks : ℕ

-- The walk of __insert, where it meets a bucket of these sectors; `none` if it meets none
unfoldable pub count_seek : ℕ → Tree SeekBkt → Option (Tree SeekBkt)
count_seek sectors null = none
count_seek sectors (node l sbp r) =
    let left = count_seek sectors l in
    let right = count_seek sectors r in
    if ltb sectors sbp.sectors
    then elim left [ none ↦ none | some l' ↦ some (node l' sbp r) ]
    else if ltb sbp.sectors sectors
    then elim right [ none ↦ none | some r' ↦ some (node l sbp r') ]
    else some (node l (record sbp { nseeks = sbp.nseeks + 1 }) r)

unfoldable pub __insert : RbOps → Tree SeekBkt → ℕ → Tree SeekBkt
unfolding count_seek
__insert ops root sectors = elim (count_seek sectors root) [
  | some root' ↦ root'
  | none ↦
      let left = λ (b : SeekBkt). ltb sectors b.sectors in
      ops.rb_insert_color (link_place left root)
        (link left (record { sectors = sectors; nseeks = 1 }) root)
]

-- root, tot_seeks and the last request of struct seeki
pub record Seeks : Type 0 where
  pub root : Tree SeekBkt
  pub tot_seeks : ℕ
  pub last : Seeki

-- seeki_add, with seek_absolute, for a request at a sector of a number of bytes
unfoldable pub seeki_add : RbOps → Bool → Seeks → ℕ × ℕ → Seeks
unfolding seek_dist __insert
seeki_add ops seek_absolute sip (sector, bytes) =
    let (dist, last) = seek_dist seek_absolute sip.last sector bytes in
    record { root = __insert ops sip.root (llabs dist); tot_seeks = sip.tot_seeks + 1; last = last }

-- seeki_alloc
unfoldable pub seeki_alloc : Seeks
seeki_alloc = record { root = null; tot_seeks = 0; last = record { last_start = 0; last_end = 0 } }

-- The result of __median, if it is 1: what it puts in *rvp
unfoldable pub __median : Tree SeekBkt → ℕ → ℕ → Option ℕ
__median null sofar target = none
__median (node l sbp r) sofar target =
    let left = __median l sofar target in
    let right = __median r sofar target in
    if leb target (sofar + sbp.nseeks)
    then some sbp.sectors
    else elim left [ some v ↦ some v | none ↦ right ]

unfoldable pub seeki_median : Seeks → ℕ
unfolding __median
seeki_median sip = elim (__median sip.root 0 (sip.tot_seeks / 2)) [ some v ↦ v | none ↦ 0 ]

-- most_seeks and modes of struct mode, which is `none` before modes is allocated
unfoldable pub mode_here : SeekBkt → Option (ℕ × List ℕ) → Option (ℕ × List ℕ)
mode_here sbp none = some (sbp.nseeks, sbp.sectors ∷ [])
mode_here sbp (some (most_seeks, modes)) =
    if ltb most_seeks sbp.nseeks
    then some (sbp.nseeks, sbp.sectors ∷ [])
    else if sbp.nseeks == most_seeks
    then some (sbp.nseeks, modes ++ sbp.sectors ∷ [])
    else some (most_seeks, modes)

unfoldable pub __mode : Tree SeekBkt → Option (ℕ × List ℕ) → Option (ℕ × List ℕ)
unfolding mode_here
__mode null mp = mp
__mode (node l sbp r) mp = mode_here sbp (__mode r (__mode l mp))

unfoldable pub seeki_mode : Seeks → Option (ℕ × List ℕ)
unfolding __mode
seeki_mode sip = __mode sip.root none
