-- ===== src/Btt/Seek/Counts.antt =====
-- The buckets hold how often each distance occurred.
use blktrace.Common.{
  ℕ, ◌+◌, ◌≡◌, Bool, Option, none, some, List, [], ◌∷◌, if◌then◌else◌, ◌==◌, ◌-◌, ◌/◌, leb, ◌&&◌,
  ◌||◌, true, false,
}
use blktrace.Parse.RbTree.{Tree, RbOps, to_list}
use blktrace.Btt.Seek.{SeekBkt, Seeks, seeki_add}

-- How many seeks of a distance the buckets count
unfoldable pub seeks_of : ℕ → List SeekBkt → ℕ
seeks_of d [] = 0
seeks_of d (b ∷ bs) = (if b.sectors == d then b.nseeks else 0) + seeks_of d bs

abbrev pub one_if : Bool → ℕ
one_if b = if b then 1 else 0

-- One seek of a distance more, if the walk meets its bucket
abbrev Bumped : ℕ → ℕ → Tree SeekBkt → Option (Tree SeekBkt) → Type 0
Bumped d s t none = Unit {0}
Bumped d s t (some t') = seeks_of d (to_list t') ≡ seeks_of d (to_list t) + one_if (s == d)

-- How far a request from s to e is from the last one, from ps to pe. With absolute distances it is the
-- distance of s from pe. Else it is nothing where s or e is from ps to pe; it is that from pe on to s
-- where s is behind pe, and that from s on to ps where s is before ps.
unfoldable pub gap : Bool → ℕ × ℕ → ℕ × ℕ → ℕ
gap true (ps, pe) (s, e) = (s - pe) + (pe - s)
gap false (ps, pe) (s, e) =
    if (leb ps s && leb s pe) || (leb ps e && leb e pe) then 0 else (s - pe) + (ps - s)

-- How many of the requests, each at a sector and of a number of bytes, have a distance, where the
-- sectors of the last request before them are given
unfoldable pub with_distance : Bool → ℕ → ℕ × ℕ → List (ℕ × ℕ) → ℕ
unfolding gap
with_distance absolute d last [] = 0
with_distance absolute d last ((sector, bytes) ∷ rs) =
    let now : ℕ × ℕ = (sector, sector + bytes / 512) in
    one_if (gap absolute last now == d) + with_distance absolute d now rs

module _ (ops : RbOps) where
  open ops use {rb_insert_color_lem}

  -- The requests, one after the other
  unfoldable pub seeki_adds : Bool → Seeks → List (ℕ × ℕ) → Seeks
  unfolding seeki_add
  seeki_adds absolute sip [] = sip
  seeki_adds absolute sip (r ∷ rs) = seeki_adds absolute (seeki_add ops absolute sip r) rs
