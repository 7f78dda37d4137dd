-- ===== src/Iowatcher/Devices/Layout.antt =====
-- The first loop of map_devices: the entries of the devices hold the ranges of all the records.
use blktrace.Common.{
  ℕ, ◌+◌, ◌*◌, ◌%◌, ◌≤◌, ◌<◌, ◌^◌, ◌≡◌, refl, ap, sym, ◌∙◌, subst, false, Option, none, some, List,
  [], ◌∷◌, ◌++◌, if◌then◌else◌, ◌==◌, leb, find, length, All, Bool-cases, Option-cases, inl, inr,
  OnSome, OnSome-weaken, ==_refl, arith,
}
use mathlib.Core.Option
use blktrace.Trace.Record.{BlkIoTrace}
use blktrace.Iowatcher.{is_notify_event}
use blktrace.Iowatcher.Devices.{
  DevInfo, is_device, lookup_dev, set_dev, offset_of, widen, scan_devices,
}

-- The entry of a device
unfoldable pub entry : List DevInfo → ℕ → Option DevInfo
entry devices dev = find (is_device dev) devices

-- The range of a record, from its offset to its end, fits 64 bits, and is not a notify trace's.
abbrev pub IsRange : BlkIoTrace → Type 0
IsRange io = (is_notify_event io ≡ false) × (io.sector * 2 ^ 9 + io.bytes < 2 ^ 64)

-- The device of the record has an entry, with the minimum 0, and a maximum that its range is not above.
abbrev pub HeldIn : List DevInfo → BlkIoTrace → Type 0
HeldIn devices io =
    (di : DevInfo) × (entry devices io.device ≡ some di)
    × (di.min ≡ 0)
    × (io.sector * 2 ^ 9 + io.bytes ≤ di.max)

-- An entry is found under its device.
entry-own :
    (devices : List DevInfo) (dev : ℕ) {di : DevInfo}
    → entry devices dev ≡ some di
    → di.device ≡ dev
unfolding entry is_device
entry-own [] dev e = cc
entry-own (x ∷ xs) dev {di} e = elim (Bool-cases (is_device dev x)) [
  | inl h ↦
      let f : some x ≡ some di = rw h at e in
      subst (λ y. y.device ≡ dev) (Option.some-injective _ _ f) (ground (arith, h))
  | inr h ↦ entry-own xs dev (rw h at e)
]

entry-set_dev :
    (di q : DevInfo) (devices : List DevInfo) (dev : ℕ)
    → entry devices di.device ≡ some q
    → entry (set_dev di devices) dev ≡ (if dev == di.device then some di else entry devices dev)
unfolding entry is_device set_dev
entry-set_dev di q [] dev e = cc
entry-set_dev di q (x ∷ xs) dev e = elim (Bool-cases (is_device di.device x)) [
  | inl h ↦ rw h (ground (arith, h))
  | inr h ↦ rw h (ground (arith, h, entry-set_dev di q xs dev (rw h at e)))
]

entry-append :
    (di : DevInfo) (devices : List DevInfo) (dev : ℕ)
    → entry devices di.device ≡ none
    → entry (devices ++ di ∷ []) dev ≡ (if dev == di.device then some di else entry devices dev)
unfolding entry is_device
entry-append di [] dev e = ground arith
entry-append di (x ∷ xs) dev e = ground (arith, e, entry-append di xs dev)

-- The entry of a device, as calloc leaves it where there is none
abbrev entry_or_new : Option DevInfo → ℕ → DevInfo
entry_or_new none dev = record { device = dev; min = 0; max = 0; map = 0 }
entry_or_new (some di) dev = di

-- What lookup_dev returns
abbrev Looked : List DevInfo → BlkIoTrace → DevInfo × List DevInfo → Type 0
Looked devices io (di, devices') =
    (di ≡ entry_or_new (entry devices io.device) io.device)
    × (di.device ≡ io.device)
    × ((dev : ℕ) → entry devices' dev ≡ (if dev == io.device then some di else entry devices dev))

abbrev pub AllZero : List DevInfo → Type 0
AllZero devices = All (λ (di : DevInfo). di.min ≡ 0) devices

lookup_dev-entry :
    (devices : List DevInfo) (io : BlkIoTrace) → OnSome (Looked devices io) (lookup_dev devices io)
unfolding lookup_dev entry
lookup_dev-entry devices io = elim (Option-cases (entry devices io.device)) [
  | inl e ↦ elim (Bool-cases (leb 64 (length devices))) [
    | inl h ↦ rw (lookup_dev, e, h) tt
    | inr h ↦
        rw (lookup_dev, e, h)
          (sym (ap (λ o. entry_or_new o io.device) e), refl, λ dev. entry-append _ devices dev e)
  ]
  | inr (di, e) ↦
      rw (lookup_dev, e)
        (
          sym (ap (λ o. entry_or_new o io.device) e),
          entry-own devices io.device e,
          λ dev. elim (Bool-cases (dev == io.device)) [
            | inl h ↦
                let same : dev ≡ io.device = ground (arith, h) in
                rw h (ap (λ k. find (is_device k) devices) same ∙ e)
            | inr h ↦ rw h refl
          ],
        )
]

entry-AllZero :
    (devices : List DevInfo) (dev : ℕ)
    → AllZero devices
    → (entry_or_new (entry devices dev) dev).min ≡ 0
unfolding entry
entry-AllZero [] dev a = refl
entry-AllZero (x ∷ xs) dev a = elim (Bool-cases (is_device dev x)) [
  | inl h ↦ rw h a.0
  | inr h ↦ rw h (entry-AllZero xs dev a.1)
]

append-AllZero :
    (di : DevInfo) (devices : List DevInfo)
    → di.min ≡ 0
    → AllZero devices
    → AllZero (devices ++ di ∷ [])
append-AllZero di [] z a = (z, tt)
append-AllZero di (x ∷ xs) z a = (a.0, append-AllZero di xs z a.1)

set_dev-AllZero :
    (di : DevInfo) (devices : List DevInfo)
    → di.min ≡ 0
    → AllZero devices
    → AllZero (set_dev di devices)
unfolding set_dev
set_dev-AllZero di [] z a = tt
set_dev-AllZero di (x ∷ xs) z a = elim (Bool-cases (is_device di.device x)) [
  | inl h ↦ rw h (z, a.1)
  | inr h ↦ rw h (a.0, set_dev-AllZero di xs z a.1)
]

lookup_dev-AllZero :
    (devices : List DevInfo) (io : BlkIoTrace)
    → AllZero devices
    → OnSome (λ (out : DevInfo × List DevInfo). AllZero out.1) (lookup_dev devices io)
unfolding lookup_dev
lookup_dev-AllZero devices io a = elim (Option-cases (find (is_device io.device) devices)) [
  | inl e ↦ elim (Bool-cases (leb 64 (length devices))) [
    | inl h ↦ rw (lookup_dev, e, h) tt
    | inr h ↦ rw (lookup_dev, e, h) (append-AllZero _ devices refl a)
  ]
  | inr (di, e) ↦ rw (lookup_dev, e) a
]

-- One entry is widened by the range of the record.
widen-holds :
    (io : BlkIoTrace) (di : DevInfo)
    → io.sector * 2 ^ 9 + io.bytes < 2 ^ 64
    → di.min ≡ 0
    → ((widen io di).min ≡ 0)
      × (io.sector * 2 ^ 9 + io.bytes ≤ (widen io di).max)
      × (di.max ≤ (widen io di).max)
unfolding widen offset_of
widen-holds io di r z =
    let plain : io.sector * 2 ^ 9 % 2 ^ 64 ≡ io.sector * 2 ^ 9 = omega (arith, r) in
    rw plain (ground (arith, z, r), ground (arith, r), ground (arith, r))

-- One record scanned: its range is held, what was held is, and the minima are 0.
record Scanned (io : BlkIoTrace) (devices devices' : List DevInfo) : Type 0 where
  zero : AllZero devices'
  held : HeldIn devices' io
  kept : (x : BlkIoTrace) → HeldIn devices x → HeldIn devices' x

scan_one :
    (io : BlkIoTrace) (devices devices' : List DevInfo) (di : DevInfo)
    → IsRange io
    → AllZero devices
    → AllZero devices'
    → Looked devices io (di, devices')
    → Scanned io devices (set_dev (widen io di) devices')
unfolding widen
scan_one io devices devices' di r a b l =
    let z : di.min ≡ 0 = ap (λ (k : DevInfo). k.min) l.0 ∙ entry-AllZero devices io.device a in
    let w = widen-holds io di r.1 z in
    let there : entry devices' (widen io di).device ≡ some di =
      ground (arith, l.2 di.device, l.1) in
    let after : (dev : ℕ)
        → entry (set_dev (widen io di) devices') dev
          ≡ (if dev == io.device then some (widen io di) else entry devices dev) =
      λ dev. entry-set_dev (widen io di) di devices' dev there ∙ (ground (arith, l.1, l.2 dev)) in
    record {
      zero = set_dev-AllZero (widen io di) devices' w.0 b;
      held = (widen io di, after io.device ∙ (rw (==_refl io.device) refl), w.0, w.1);
      kept = λ x (d, e, zd, m). elim (Bool-cases (x.device == io.device)) [
        | inl h ↦
            let same : x.device ≡ io.device = ground (arith, h) in
            let own : di ≡ d =
              l.0 ∙ ap (λ o. entry_or_new o io.device) (ap (entry devices) (sym same) ∙ e) in
            let wider : d.max ≤ (widen io di).max =
              subst (λ (k : DevInfo). k.max ≤ (widen io di).max) own w.2 in
            (widen io di, after x.device ∙ (rw h refl), w.0, omega (arith, m, wider))
        | inr h ↦ (d, after x.device ∙ (rw h e), zd, m)
      ];
    }

abbrev pub AfterScan : List BlkIoTrace → List DevInfo → List DevInfo → Type 0
AfterScan ios devices devices' =
    AllZero devices'
    × All (HeldIn devices') ios
    × ((x : BlkIoTrace) → HeldIn devices x → HeldIn devices' x)

pub scan_devices-AfterScan :
    (ios : List BlkIoTrace) (devices : List DevInfo)
    → All IsRange ios
    → AllZero devices
    → OnSome (AfterScan ios devices) (scan_devices ios devices)
unfolding scan_devices
scan_devices-AfterScan [] devices r a = (a, tt, λ x h. h)
scan_devices-AfterScan (io ∷ ios) devices r a = elim (Option-cases (lookup_dev devices io)) [
  | inl e ↦ rw (scan_devices, r.0.0, e) tt
  | inr ((di, devices'), e) ↦
      let l = subst (OnSome (Looked devices io)) e (lookup_dev-entry devices io) in
      let b =
        subst (OnSome (λ (out : DevInfo × List DevInfo). AllZero out.1)) e
          (lookup_dev-AllZero devices io a) in
      let one = scan_one io devices devices' di r.0 a b l in
      let now = set_dev (widen io di) devices' in
      rw (scan_devices, r.0.0, e)
        (OnSome-weaken (AfterScan ios now) (AfterScan (io ∷ ios) devices)
          (λ out (z, h, k). (z, (k io one.held, h), λ x g. k x (one.kept x g)))
          (scan_devices ios now) (scan_devices-AfterScan ios now r.1 one.zero))
]
