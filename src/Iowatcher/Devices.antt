-- ===== src/Iowatcher/Devices.antt =====
-- The devices of a trace in iowatcher/blkparse.c: map_devices lays the offsets of several devices
-- one after the other. trace->devices is the list of the entries in use; `none` is exit(1).
pub mod Layout
pub mod Places
use blktrace.Common.{
  ℕ, ◌*◌, ◌%◌, ◌^◌, Bool, Option, none, some, List, [], ◌∷◌, ◌++◌, if◌then◌else◌, ◌==◌, ltb, leb,
  find, length, add64, sub64, ◌>>=◌,
}
use blktrace.Trace.Record.{BlkIoTrace}
use blktrace.Iowatcher.{is_notify_event}

-- struct dev_info
pub record DevInfo : Type 0 where
  pub device : ℕ
  pub min : ℕ
  pub max : ℕ
  pub map : ℕ

-- MAX_DEVICES_PER_TRACE
abbrev pub max_devices_per_trace : ℕ
max_devices_per_trace = 64

unfoldable pub is_device : ℕ → DevInfo → Bool
is_device dev di = di.device == dev

-- lookup_dev: the entry, and the entries with it. A new one is as calloc left it.
unfoldable pub lookup_dev : List DevInfo → BlkIoTrace → Option (DevInfo × List DevInfo)
unfolding is_device
lookup_dev devices io = elim (find (is_device io.device) devices) [
  | some di ↦ some (di, devices)
  | none ↦
      let di : DevInfo = record { device = io.device; min = 0; max = 0; map = 0 } in
      if leb max_devices_per_trace (length devices) then none else some (di, devices ++ di ∷ [])
]

-- A write through the pointer that lookup_dev returned
unfoldable pub set_dev : DevInfo → List DevInfo → List DevInfo
unfolding is_device
set_dev di [] = []
set_dev di (x ∷ xs) = if is_device di.device x then di ∷ xs else x ∷ set_dev di xs

-- sector << 9, on a u64
unfoldable pub offset_of : BlkIoTrace → ℕ
offset_of io = io.sector * 2 ^ 9 % 2 ^ 64

-- di->min and di->max with the range of a record
unfoldable pub widen : BlkIoTrace → DevInfo → DevInfo
unfolding offset_of
widen io di =
    let end = add64 (offset_of io) io.bytes in
    record di {
      min = if ltb (offset_of io) di.min then offset_of io else di.min;
      max = if ltb di.max end then end else di.max;
    }

-- The first loop of map_devices
unfoldable pub scan_devices : List BlkIoTrace → List DevInfo → Option (List DevInfo)
unfolding lookup_dev set_dev widen is_notify_event
scan_devices [] devices = some devices
scan_devices (io ∷ ios) devices =
    let rest = λ (devices' : List DevInfo). scan_devices ios devices' in
    if is_notify_event io then rest devices else elim (lookup_dev devices io) [
      | none ↦ none
      | some (di, devices') ↦ rest (set_dev (widen io di) devices')
    ]

-- The second loop of map_devices, at map_start
unfoldable pub place_devices : ℕ → List DevInfo → List DevInfo
place_devices map_start [] = []
place_devices map_start (di ∷ devices) =
    record di { map = map_start } ∷ place_devices (add64 map_start (sub64 di.max di.min)) devices

unfoldable pub map_devices : List BlkIoTrace → List DevInfo → Option (List DevInfo)
unfolding scan_devices place_devices
map_devices ios devices = elim (scan_devices ios devices) [
  | none ↦ none
  | some devices' ↦ some (place_devices 0 devices')
]

-- map_io, for a record whose device has an entry
unfoldable pub map_io : List DevInfo → BlkIoTrace → Option ℕ
unfolding lookup_dev offset_of
map_io devices io = elim (lookup_dev devices io) [
  | none ↦ none
  | some (di, devices') ↦ some (sub64 (add64 di.map (offset_of io)) di.min)
]
