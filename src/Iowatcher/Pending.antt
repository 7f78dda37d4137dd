-- ===== src/Iowatcher/Pending.antt =====
-- The requests in flight of iowatcher/blkparse.c: io_hash_table, a hash of lists in the order of
-- insertion. A struct pending_io is reached through its sector and device: a write through a
-- pointer to it is set_pio, and list_del of it is del_pio.
pub mod Laws
pub mod Operations
use blktrace.Common.{
  ℕ, ◌+◌, ◌*◌, ◌/◌, ◌%◌, ◌^◌, Bool, ◌&&◌, Option, none, some, List, [], ◌∷◌, ◌++◌, if◌then◌else◌,
  ◌==◌, find, add64, sub64,
}
use blktrace.Trace.Record.{BlkIoTrace}

-- struct pending_io, without its place in a list
pub record PendingIo : Type 0 where
  pub sector : ℕ
  pub device : ℕ
  pub dispatch_time : ℕ
  pub completion_time : ℕ
  pub pid : ℕ

abbrev pub Table : Type 0
Table = ℕ → List PendingIo

-- n <<= k, on a u64
unfoldable pub shl64 : ℕ → ℕ → ℕ
shl64 n k = n * 2 ^ k % 2 ^ 64

unfoldable pub hash_sector : ℕ → ℕ
unfolding shl64
hash_sector val =
    let n1 = shl64 val 18 in
    let n2 = shl64 n1 33 in
    let n3 = shl64 n2 3 in
    let n4 = shl64 n3 3 in
    let n5 = shl64 n4 4 in
    let n6 = shl64 n5 2 in
    add64 (add64 (sub64 (add64 (sub64 (sub64 val n1) n2) n3) n4) n5) n6 / 2 ^ 53

-- pio->sector == sector && pio->device == dev
unfoldable pub is_io : ℕ → ℕ → PendingIo → Bool
is_io sector dev pio = pio.sector == sector && pio.device == dev

-- io_hash_table[slot] = list
unfoldable pub put_list : Table → ℕ → List PendingIo → Table
put_list table slot list j = if j == slot then list else table j

unfoldable pub io_hash_table_search : Table → ℕ → ℕ → Option PendingIo
unfolding hash_sector is_io
io_hash_table_search table sector dev = find (is_io sector dev) (table (hash_sector sector))

-- `none` is -EEXIST.
unfoldable pub io_hash_table_insert : Table → PendingIo → Option Table
unfolding hash_sector is_io put_list
io_hash_table_insert table ins_pio =
    let slot = hash_sector ins_pio.sector in
    elim (find (is_io ins_pio.sector ins_pio.device) (table slot)) [
      | some pio ↦ none
      | none ↦ some (put_list table slot (table slot ++ ins_pio ∷ []))
    ]

unfoldable pub hash_queued_io : Table → BlkIoTrace → Option (PendingIo × Table)
unfolding io_hash_table_insert
hash_queued_io table io =
    let pio : PendingIo = record {
      sector = io.sector;
      device = io.device;
      dispatch_time = 0;
      completion_time = 0;
      pid = io.pid;
    } in
    elim (io_hash_table_insert table pio) [ none ↦ none | some table' ↦ some (pio, table') ]

-- The entry with the sector and the device of pio, written over
unfoldable pub set_first : PendingIo → List PendingIo → List PendingIo
unfolding is_io
set_first pio [] = []
set_first pio (x ∷ xs) = if is_io pio.sector pio.device x then pio ∷ xs else x ∷ set_first pio xs

unfoldable pub set_pio : Table → PendingIo → Table
unfolding set_first put_list
set_pio table pio =
    let slot = hash_sector pio.sector in put_list table slot (set_first pio (table slot))

unfoldable pub del_first : ℕ → ℕ → List PendingIo → List PendingIo
unfolding is_io
del_first sector dev [] = []
del_first sector dev (x ∷ xs) = if is_io sector dev x then xs else x ∷ del_first sector dev xs

unfoldable pub del_pio : Table → PendingIo → Table
unfolding del_first put_list
del_pio table pio =
    let slot = hash_sector pio.sector in
    put_list table slot (del_first pio.sector pio.device (table slot))

unfoldable pub hash_dispatched_io : Table → BlkIoTrace → Option (PendingIo × Table)
unfolding io_hash_table_search hash_queued_io set_pio
hash_dispatched_io table io =
    let found : Option (PendingIo × Table) = elim (io_hash_table_search table io.sector io.device) [
      | some pio ↦ some (pio, table)
      | none ↦ hash_queued_io table io
    ] in
    elim found [
      | none ↦ none
      | some (pio, table') ↦
          let pio' : PendingIo = record pio { dispatch_time = io.time } in
          some (pio', set_pio table' pio')
    ]

unfoldable pub hash_completed_io : Table → BlkIoTrace → Option PendingIo
unfolding io_hash_table_search
hash_completed_io table io = io_hash_table_search table io.sector io.device
