-- ===== src/Parse/Rwbs.antt =====
-- blkparse_fmt.c: fill_rwbs, the letters for the kind of a request.
use blktrace.Common.{
  ℕ, ◌+◌, ◌≡◌, Bool, true, false, not, List, [], ◌∷◌, if◌then◌else◌, ◌==◌, has_bits, ◌<◌, has_bit,
}
use blktrace.Trace.Record.{BlkIoTrace}
use blktrace.Trace.Tc

-- The letter of the direction
unfoldable pub direction : BlkIoTrace → ℕ
direction t =
    if has_bits t.action (Tc.act Tc.discard)
    then b'D'
    else if has_bits t.action (Tc.act Tc.write)
    then b'W'
    else if not (t.bytes == 0)
    then b'R'
    else b'N'

-- One letter, if the flag is set
abbrev pub put : Bool → ℕ → List ℕ → List ℕ
put b c l = if b then c ∷ l else l

-- The string that fill_rwbs writes, without its end
unfoldable pub fill_rwbs : BlkIoTrace → List ℕ
unfolding direction
fill_rwbs t = put (has_bits t.action (Tc.act Tc.flush)) b'F' (
    direction t
    ∷ put (has_bits t.action (Tc.act Tc.fua)) b'F' (
        put (has_bits t.action (Tc.act Tc.ahead)) b'A' (
          put (has_bits t.action (Tc.act Tc.sync)) b'S'
            (put (has_bits t.action (Tc.act Tc.meta)) b'M' []))))

-- A reader of such strings: is the letter next, and what follows
abbrev pub next_is : ℕ → List ℕ → Bool × List ℕ
next_is c [] = (false, [])
next_is c (x ∷ l) = if x == c then (true, l) else (false, x ∷ l)

abbrev pub first : List ℕ → ℕ × List ℕ
first [] = (0, [])
first (x ∷ l) = (x, l)

-- The flags flush, fua, ahead, sync and meta, and the letter of the direction
unfoldable pub read_rwbs : List ℕ → Bool × ℕ × Bool × Bool × Bool × Bool
read_rwbs l0 =
    let (flush, l1) = next_is b'F' l0 in
    let (dir, l2) = first l1 in
    let (fua, l3) = next_is b'F' l2 in
    let (ahead, l4) = next_is b'A' l3 in
    let (sync, l5) = next_is b'S' l4 in
    let (meta, l6) = next_is b'M' l5 in (flush, dir, fua, ahead, sync, meta)

-- What is spelled with any flags
spelled : Bool → ℕ → Bool → Bool → Bool → Bool → List ℕ
spelled f d u a s m = put f b'F' (d ∷ put u b'F' (put a b'A' (put s b'S' (put m b'M' []))))

-- The category of a number, as a bit of the action's upper half
abbrev pub in_category : ℕ → BlkIoTrace → Bool
in_category k t = has_bit (16 + k) t.action

-- Which letter stands for the direction of a trace: D for a discard, else W for a write, else R where
-- bytes are moved, else N.
pub data IsDirection (t : BlkIoTrace) : ℕ → Type 0 where
  discards : in_category 13 t ≡ true → IsDirection t b'D'
  writes : in_category 13 t ≡ false → in_category 1 t ≡ true → IsDirection t b'W'
  reads : in_category 13 t ≡ false → in_category 1 t ≡ false → 0 < t.bytes → IsDirection t b'R'
  nothing : in_category 13 t ≡ false → in_category 1 t ≡ false → t.bytes ≡ 0 → IsDirection t b'N'
