-- ===== src/Iowatcher/Devices/Places.antt =====
-- The ranges that map_devices gives the devices: one after the other, with all the records in them.
use blktrace.Common.{
  ℕ, ◌+◌, ◌*◌, ◌%◌, ◌≤◌, ◌<◌, ◌^◌, ◌≡◌, ◌≢◌, ◌⊎◌, refl, ap, sym, subst, false, Option, some, List,
  [], ◌∷◌, add64, sub64, All, Bool-cases, inl, inr, zero, suc, get_elem?, OnSome, arith,
}
use mathlib.Core.Option
use blktrace.Trace.Record.{BlkIoTrace}
use blktrace.Iowatcher.Devices.{
  DevInfo, is_device, lookup_dev, offset_of, scan_devices, place_devices, map_devices, map_io,
}
use blktrace.Iowatcher.Devices.Layout.{
  entry, IsRange, HeldIn, AllZero, AfterScan, scan_devices-AfterScan,
}

-- The space that the devices take
unfoldable pub extent : List DevInfo → ℕ
extent [] = 0
extent (di ∷ devices) = di.max + extent devices

-- The place of an entry: within the space, with the rest of it as it was
abbrev Placed : ℕ → List DevInfo → ℕ → DevInfo → Type 0
Placed start devices dev di =
    (m : ℕ) × (entry (place_devices start devices) dev ≡ some (record di { map = m }))
    × (start ≤ m)
    × (m + di.max ≤ start + extent devices)

next_start :
    (start : ℕ) (di : DevInfo)
    → di.min ≡ 0
    → start + di.max < 2 ^ 64
    → add64 start (sub64 di.max di.min) ≡ start + di.max
next_start start di z h = ground (arith, z, h)

place-Placed :
    (start : ℕ) (devices : List DevInfo) (dev : ℕ) (di : DevInfo)
    → AllZero devices
    → start + extent devices < 2 ^ 64
    → entry devices dev ≡ some di
    → Placed start devices dev di
unfolding place_devices entry is_device extent
place-Placed start [] dev di a h e = cc
place-Placed start (x ∷ xs) dev di a h e = elim (Bool-cases (is_device dev x)) [
  | inl k ↦
      let f : some x ≡ some di = rw k at e in
      let same : x ≡ di = Option.some-injective _ _ f in
      (
        start,
        (rw k (ap (λ (y : DevInfo). some (record y { map = start })) same)),
        omega arith,
        ground (arith, ap (λ (y : DevInfo). y.max) same),
      )
  | inr k ↦
      let n = next_start start x a.0 (omega (arith, h)) in
      let (m, f, lo, hi) =
        place-Placed (start + x.max) xs dev di a.1 (omega (arith, h)) (rw k at e) in
      (
        m,
        rw k (subst (λ p. entry (place_devices p xs) dev ≡ some (record di { map = m })) (sym n) f),
        omega (arith, lo),
        omega (arith, hi),
      )
]

-- Two devices have places apart.
place-apart :
    (start : ℕ) (devices : List DevInfo) (a b : ℕ) (x y : DevInfo)
    → AllZero devices
    → start + extent devices < 2 ^ 64
    → a ≢ b
    → entry devices a ≡ some x
    → entry devices b ≡ some y
    → (m : ℕ) × (n : ℕ) × (entry (place_devices start devices) a ≡ some (record x { map = m }))
      × (entry (place_devices start devices) b ≡ some (record y { map = n }))
      × (m + x.max ≤ start + extent devices)
      × (n + y.max ≤ start + extent devices)
      × ((m + x.max ≤ n) ⊎ (n + y.max ≤ m))
unfolding place_devices entry is_device extent
place-apart start [] a b x y z h ne e f = cc
place-apart start (d ∷ ds) a b x y z h ne e f =
    let next = next_start start d z.0 (omega (arith, h)) in
    let at_next : (k : ℕ) (o : Option DevInfo)
        → entry (place_devices (start + d.max) ds) k ≡ o
        → entry (place_devices (add64 start (sub64 d.max d.min)) ds) k ≡ o =
      λ k o g. subst (λ p. entry (place_devices p ds) k ≡ o) (sym next) g in
    elim (Bool-cases (is_device a d)) [
      | inl ka ↦
          let other : is_device b d ≡ false = ground (arith, ka, ne) in
          let own : some d ≡ some x = rw ka at e in
          let same : d ≡ x = Option.some-injective _ _ own in
          let wide : d.max ≡ x.max = ap (λ (k : DevInfo). k.max) same in
          let (n, g, lo, hi) =
            place-Placed (start + d.max) ds b y z.1 (omega (arith, h)) (rw other at f) in
          (
            start,
            n,
            rw ka (ap (λ (k : DevInfo). some (record k { map = start })) same),
            rw other (at_next b _ g),
            omega (arith, wide),
            omega (arith, hi),
            inl (omega (arith, lo, wide)),
          )
      | inr ka ↦ elim (Bool-cases (is_device b d)) [
        | inl kb ↦
            let own : some d ≡ some y = rw kb at f in
            let same : d ≡ y = Option.some-injective _ _ own in
            let wide : d.max ≡ y.max = ap (λ (k : DevInfo). k.max) same in
            let (m, g, lo, hi) =
              place-Placed (start + d.max) ds a x z.1 (omega (arith, h)) (rw ka at e) in
            (
              m,
              start,
              rw ka (at_next a _ g),
              rw kb (ap (λ (k : DevInfo). some (record k { map = start })) same),
              omega (arith, hi),
              omega (arith, wide),
              inr (omega (arith, lo, wide)),
            )
        | inr kb ↦
            let (m, n, g, k, p, q, r) =
              place-apart (start + d.max) ds a b x y z.1 (omega (arith, h)) ne (rw ka at e)
                (rw kb at f) in
            (
              m,
              n,
              rw ka (at_next a _ g),
              rw kb (at_next b _ k),
              omega (arith, p),
              omega (arith, q),
              r,
            )
      ]
    ]

-- The mapped offset of a record in its device's place
map_io-place :
    (devices : List DevInfo) (io : BlkIoTrace) (di : DevInfo)
    → entry devices io.device ≡ some di
    → di.min ≡ 0
    → di.map + (io.sector * 2 ^ 9 + io.bytes) < 2 ^ 64
    → map_io devices io ≡ some (di.map + io.sector * 2 ^ 9)
unfolding map_io lookup_dev entry offset_of
map_io-place devices io di e z h =
    let plain : sub64 (add64 di.map (io.sector * 2 ^ 9 % 2 ^ 64)) di.min
        ≡ di.map + io.sector * 2 ^ 9 =
      ground (arith, z, h) in
    rw (map_io, lookup_dev, e) (ap some plain)

All-get :
    (P : BlkIoTrace → Type 0) (ios : List BlkIoTrace) (i : ℕ) {x : BlkIoTrace}
    → All P ios
    → get_elem? ios i ≡ some x
    → P x
All-get P [] i a e = cc
All-get P (y ∷ ys) zero a e = subst P (Option.some-injective _ _ e) a.0
All-get P (y ∷ ys) (suc i) a e = All-get P ys i a.1 e

-- There are no entries of devices yet, all records are of requests, with ranges that fit 64 bits, and
-- the first loop of map_devices succeeds, with devices whose space fits 64 bits. Then map_devices
-- succeeds, and two records of different devices are mapped to ranges that do not overlap: one ends
-- where the other begins, or before.
pub map_devices-apart :
    (ios : List BlkIoTrace) (found : List DevInfo)
    → All IsRange ios
    → scan_devices ios [] ≡ some found
    → extent found < 2 ^ 64
    → (i j : ℕ) (x y : BlkIoTrace) → get_elem? ios i ≡ some x
    → get_elem? ios j ≡ some y
    → x.device ≢ y.device
    → (devices : List DevInfo) × (p : ℕ) × (q : ℕ) × (map_devices ios [] ≡ some devices)
      × (map_io devices x ≡ some p)
      × (map_io devices y ≡ some q)
      × ((p + x.bytes ≤ q) ⊎ (q + y.bytes ≤ p))
unfolding map_devices
map_devices-apart ios found r e h i j x y ex ey ne =
    let after = subst (OnSome (AfterScan ios [])) e (scan_devices-AfterScan ios [] r tt) in
    let (dx, fx, zx, mx) = All-get (HeldIn found) ios i after.1 ex in
    let (dy, fy, zy, my) = All-get (HeldIn found) ios j after.1 ey in
    let (m, n, gx, gy, hx, hy, apart) =
      place-apart 0 found x.device y.device dx dy after.0 (omega (arith, h)) ne fx fy in
    let placed = place_devices 0 found in
    let px : DevInfo = record dx { map = m } in
    let py : DevInfo = record dy { map = n } in
    (
      placed,
      m + x.sector * 2 ^ 9,
      n + y.sector * 2 ^ 9,
      rw (map_devices, e) refl,
      map_io-place placed x px gx zx (omega (arith, mx, hx, h)),
      map_io-place placed y py gy zy (omega (arith, my, hy, h)),
      elim apart [ inl k ↦ inl (omega (arith, k, mx)) | inr k ↦ inr (omega (arith, k, my)) ],
    )
