-- ===== src/Iomon.antt =====
-- The statistics of blkiomon: stats.h (minimum, maximum and sums, and histograms on a logarithmic
-- scale) and blkiomon.h, with the accounting of one request in blkiomon.c.
pub mod Merge
pub mod Histogram
pub mod Devices
pub mod Matching
pub mod Fifo
use blktrace.Common.{
  ℕ, zero, suc, ◌+◌, ◌-◌, ◌*◌, ◌/◌, ◌%◌, ◌^◌, Bool, true, false, Option, none, some, List, [], ◌∷◌,
  if◌then◌else◌, ◌==◌, ltb, add32, add64, sub64, max64, has_bits, get_or, set, replicate, bit_and,
}
use blktrace.Trace.Record.{BlkIoTrace}
use blktrace.Trace.Tc

-- struct minmax
pub record Minmax : Type 0 where
  pub min : ℕ
  pub max : ℕ
  pub sum : ℕ
  pub sos : ℕ
  pub num : ℕ

unfoldable pub minmax_init : Minmax
minmax_init = record { min = max64; max = 0; sum = 0; sos = 0; num = 0 }

unfoldable pub minmax_account : Minmax → ℕ → Minmax
minmax_account mm value = record {
  min = if ltb value mm.min then value else mm.min;
  max = if ltb mm.max value then value else mm.max;
  sum = add64 mm.sum value;
  sos = add64 mm.sos (value * value);
  num = add64 mm.num 1;
}

unfoldable pub minmax_merge : Minmax → Minmax → Minmax
minmax_merge dst src = record dst {
  sum = add64 dst.sum src.sum;
  sos = add64 dst.sos src.sos;
  min = if ltb src.min dst.min then src.min else dst.min;
  max = if ltb dst.max src.max then src.max else dst.max;
  num = add64 dst.num src.num;
}

-- struct histlog2
pub record Histlog2 : Type 0 where
  pub first : ℕ
  pub delta : ℕ
  pub num : ℕ

-- For tables whose limits are below 2 ^ 31, as those of blkiomon.h are
unfoldable pub histlog2_upper_limit : ℕ → Histlog2 → ℕ
histlog2_upper_limit index h = h.first + (if index == 0 then 0 else h.delta * 2 ^ (index - 1))

-- The loop of histlog2_index at i, with the number of turns left before i is h->num - 1
unfoldable pub index_from : ℕ → ℕ → ℕ → Histlog2 → ℕ
unfolding histlog2_upper_limit
index_from zero i val h = i
index_from (suc n) i val h =
    let rest = index_from n (suc i) val h in if ltb (histlog2_upper_limit i h) val then rest else i

unfoldable pub histlog2_index : ℕ → Histlog2 → ℕ
unfolding index_from
histlog2_index val h = index_from (h.num - 1) 0 val h

unfoldable pub histlog2_account : List ℕ → ℕ → Histlog2 → List ℕ
unfolding histlog2_index
histlog2_account bucket val h =
    let index = histlog2_index val h in set bucket index (add32 (get_or bucket index 0) 1)

-- The loop of histlog2_merge over the first n elements
unfoldable pub merge_buckets : ℕ → List ℕ → List ℕ → List ℕ
merge_buckets zero dst src = dst
merge_buckets (suc n) [] src = []
merge_buckets (suc n) (d ∷ dst) [] = d ∷ dst
merge_buckets (suc n) (d ∷ dst) (s ∷ src) = add32 d s ∷ merge_buckets n dst src

unfoldable pub histlog2_merge : Histlog2 → List ℕ → List ℕ → List ℕ
unfolding merge_buckets
histlog2_merge h dst src = merge_buckets h.num dst src

-- The static tables of blkiomon.h
abbrev pub size_hist_table : Histlog2
size_hist_table = record { first = 0; delta = 1024; num = 16 }

abbrev pub d2c_hist_table : Histlog2
d2c_hist_table = record { first = 0; delta = 8; num = 25 }

-- struct blkiomon_stat
pub record BlkiomonStat : Type 0 where
  pub time : ℕ
  pub size_hist : List ℕ
  pub d2c_hist : List ℕ
  pub device : ℕ
  pub size_r : Minmax
  pub size_w : Minmax
  pub d2c_r : Minmax
  pub d2c_w : Minmax
  pub thrput_r : Minmax
  pub thrput_w : Minmax
  pub bidir : ℕ

unfoldable pub blkiomon_stat_init : BlkiomonStat
unfolding minmax_init
blkiomon_stat_init = record {
  time = 0;
  size_hist = replicate 16 0;
  d2c_hist = replicate 25 0;
  device = 0;
  size_r = minmax_init;
  size_w = minmax_init;
  d2c_r = minmax_init;
  d2c_w = minmax_init;
  thrput_r = minmax_init;
  thrput_w = minmax_init;
  bidir = 0;
}

unfoldable pub blkiomon_stat_merge : BlkiomonStat → BlkiomonStat → BlkiomonStat
unfolding histlog2_merge minmax_merge
blkiomon_stat_merge dst src = record dst {
  size_hist = histlog2_merge size_hist_table dst.size_hist src.size_hist;
  d2c_hist = histlog2_merge d2c_hist_table dst.d2c_hist src.d2c_hist;
  size_r = minmax_merge dst.size_r src.size_r;
  size_w = minmax_merge dst.size_w src.size_w;
  d2c_r = minmax_merge dst.d2c_r src.d2c_r;
  d2c_w = minmax_merge dst.d2c_w src.d2c_w;
  thrput_r = minmax_merge dst.thrput_r src.thrput_r;
  thrput_w = minmax_merge dst.thrput_w src.thrput_w;
  bidir = add64 dst.bidir src.bidir;
}

-- blkiomon_account on the statistics of the device. `none` is the division by zero that a request
-- completed within a microsecond causes; `size * 1000` is a product of 32 bits, and the histogram
-- takes the low 32 bits of d2c.
unfoldable pub blkiomon_account : BlkIoTrace → BlkIoTrace → BlkiomonStat → Option BlkiomonStat
unfolding minmax_account histlog2_account
blkiomon_account bit_d bit_c p =
    let d2c = sub64 bit_c.time bit_d.time / 1000 in
    let size = bit_d.bytes in
    let thrput = size * 1000 % 2 ^ 32 / d2c in
    let p' : BlkiomonStat =
      if has_bits bit_c.action (Tc.act Tc.read)
      then record p {
        thrput_r = minmax_account p.thrput_r thrput;
        size_r = minmax_account p.size_r size;
        d2c_r = minmax_account p.d2c_r d2c;
      }
      else if has_bits bit_c.action (Tc.act Tc.write)
      then record p {
        thrput_w = minmax_account p.thrput_w thrput;
        size_w = minmax_account p.size_w size;
        d2c_w = minmax_account p.d2c_w d2c;
      }
      else record p { bidir = add64 p.bidir 1 } in
    if d2c == 0
    then none
    else some (record p' {
      size_hist = histlog2_account p'.size_hist size size_hist_table;
      d2c_hist = histlog2_account p'.d2c_hist (d2c % 2 ^ 32) d2c_hist_table;
    })
