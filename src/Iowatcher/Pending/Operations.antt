-- ===== src/Iowatcher/Pending/Operations.antt =====
-- What hash_queued_io, hash_dispatched_io and list_del do to the requests in flight.
use blktrace.Common.{
  ℕ, ◌≡◌, refl, sym, subst, false, ◌&&◌, Option, none, some, [], ◌∷◌, ◌++◌, if◌then◌else◌, ◌==◌,
  All-both, Option-cases, inl, inr, arith,
}
use blktrace.Trace.Record.{BlkIoTrace}
use blktrace.Iowatcher.Pending.{
  PendingIo, Table, hash_sector, put_list, io_hash_table_search, io_hash_table_insert,
  hash_queued_io, set_first, set_pio, del_first, del_pio, hash_dispatched_io,
}
use blktrace.Iowatcher.Pending.Laws.{
  IsValid, put_list-IsValid, put_list-entry, find-own, find-snoc, find-set_first, find-del_first,
  del_first-All, del_first-Distinct, set_first-All, set_first-Distinct, snoc-Distinct,
}

-- One entry of the map changes.
pub record Changed (table : Table) (sector device : ℕ) (o : Option PendingIo) (table' : Table)
    : Type 0 where
  pub valid : IsValid table'
  pub entry :
      (s d : ℕ)
      → io_hash_table_search table' s d
        ≡ (if (s == sector) && (d == device) then o else io_hash_table_search table s d)

pub del_pio-Changed :
    (table : Table) (pio : PendingIo)
    → IsValid table
    → Changed table pio.sector pio.device none (del_pio table pio)
unfolding del_pio
del_pio-Changed table pio v =
    let slot = hash_sector pio.sector in
    let l = table slot in
    record {
      valid =
          put_list-IsValid table slot (del_first pio.sector pio.device l)
            (del_first-All (λ p. hash_sector p.sector ≡ slot) pio.sector pio.device l
              (v.placed slot))
            (del_first-Distinct pio.sector pio.device l (v.unique slot)) v;
      entry =
          put_list-entry table _ pio.sector pio.device none
            λ s d. find-del_first pio.sector pio.device l s d (v.unique slot);
    }

pub set_pio-Changed :
    (table : Table) (pio q : PendingIo)
    → IsValid table
    → io_hash_table_search table pio.sector pio.device ≡ some q
    → Changed table pio.sector pio.device (some pio) (set_pio table pio)
unfolding set_pio io_hash_table_search
set_pio-Changed table pio q v e =
    let slot = hash_sector pio.sector in
    let l = table slot in
    record {
      valid =
          put_list-IsValid table slot (set_first pio l)
            (set_first-All (λ s d. hash_sector s ≡ slot) pio l (v.placed slot))
            (set_first-Distinct pio l (v.unique slot)) v;
      entry =
          put_list-entry table _ pio.sector pio.device (some pio)
            λ s d. find-set_first pio q l s d e;
    }

pub io_hash_table_insert-Changed :
    (table : Table) (pio : PendingIo)
    → IsValid table
    → io_hash_table_search table pio.sector pio.device ≡ none
    → (table' : Table) × (io_hash_table_insert table pio ≡ some table')
      × Changed table pio.sector pio.device (some pio) table'
unfolding io_hash_table_insert io_hash_table_search
io_hash_table_insert-Changed table pio v e =
    let slot = hash_sector pio.sector in
    let l = table slot in
    (
      put_list table slot (l ++ pio ∷ []),
      rw (io_hash_table_insert, e) refl,
      record {
        valid =
            put_list-IsValid table slot (l ++ pio ∷ [])
              (All-both (λ p. hash_sector p.sector ≡ slot) l (pio ∷ []) (v.placed slot) (refl, tt))
              (snoc-Distinct pio l e (v.unique slot)) v;
        entry =
            put_list-entry table _ pio.sector pio.device (some pio) λ s d. find-snoc pio l s d e;
      },
    )

-- A request that is queued
abbrev pub fresh : BlkIoTrace → PendingIo
fresh io = record {
  sector = io.sector;
  device = io.device;
  dispatch_time = 0;
  completion_time = 0;
  pid = io.pid;
}

-- hash_queued_io fails where the request is in flight.
pub hash_queued_io-found :
    (table : Table) (io : BlkIoTrace) (q : PendingIo)
    → io_hash_table_search table io.sector io.device ≡ some q
    → hash_queued_io table io ≡ none
unfolding hash_queued_io io_hash_table_insert io_hash_table_search
hash_queued_io-found table io q e = rw (hash_queued_io, io_hash_table_insert, e) refl

pub hash_queued_io-Changed :
    (table : Table) (io : BlkIoTrace)
    → IsValid table
    → io_hash_table_search table io.sector io.device ≡ none
    → (table' : Table) × (hash_queued_io table io ≡ some (fresh io, table'))
      × Changed table io.sector io.device (some (fresh io)) table'
unfolding hash_queued_io
hash_queued_io-Changed table io v e =
    let (table', f, c) = io_hash_table_insert-Changed table (fresh io) v e in
    (table', rw (hash_queued_io, f) refl, c)

pub search-own :
    (table : Table) (s d : ℕ) {q : PendingIo}
    → io_hash_table_search table s d ≡ some q
    → (q.sector ≡ s) × (q.device ≡ d)
unfolding io_hash_table_search
search-own table s d e = find-own s d (table (hash_sector s)) e

-- The outcome of a dispatch: the request is in flight, since the time of the dispatch.
pub record Dispatched (table : Table) (io : BlkIoTrace) (pio : PendingIo) (table' : Table)
    : Type 0 where
  pub time : pio.dispatch_time ≡ io.time
  pub sector : pio.sector ≡ io.sector
  pub device : pio.device ≡ io.device
  pub change : Changed table io.sector io.device (some pio) table'

set_pio-Dispatched :
    (table table' : Table) (io : BlkIoTrace) (q : PendingIo)
    → IsValid table'
    → io_hash_table_search table' io.sector io.device ≡ some q
    → ((s d : ℕ)
        → (s == io.sector) && (d == io.device) ≡ false
        → io_hash_table_search table' s d ≡ io_hash_table_search table s d)
    → let pio : PendingIo = record q { dispatch_time = io.time } in
      Dispatched table io pio (set_pio table' pio)
set_pio-Dispatched table table' io q v e f =
    let own = search-own table' io.sector io.device e in
    let pio : PendingIo = record q { dispatch_time = io.time } in
    let here =
      subst (λ n. io_hash_table_search table' n q.device ≡ some q) (sym own.0)
        (subst (λ n. io_hash_table_search table' io.sector n ≡ some q) (sym own.1) e) in
    let c = set_pio-Changed table' pio q v here in
    record {
      time = refl;
      sector = own.0;
      device = own.1;
      change = record { valid = c.valid; entry = λ s d. ground (arith, c.entry s d, f s d, own) };
    }

-- A request is in flight, or queued by the call: the dispatch sets its time, and changes no other request.
pub hash_dispatched_io-Dispatched :
    (table : Table) (io : BlkIoTrace)
    → IsValid table
    → (pio : PendingIo) × (table' : Table) × (hash_dispatched_io table io ≡ some (pio, table'))
      × Dispatched table io pio table'
unfolding hash_dispatched_io
hash_dispatched_io-Dispatched table io v =
    elim (Option-cases (io_hash_table_search table io.sector io.device)) [
      | inr (q, e) ↦
          let pio : PendingIo = record q { dispatch_time = io.time } in
          (
            pio,
            set_pio table pio,
            rw (hash_dispatched_io, e) refl,
            set_pio-Dispatched table table io q v e (λ s d h. refl),
          )
      | inl e ↦
          let (table', f, c) = hash_queued_io-Changed table io v e in
          let pio : PendingIo = record (fresh io) { dispatch_time = io.time } in
          (
            pio,
            set_pio table' pio,
            rw (hash_dispatched_io, e, f) refl,
            set_pio-Dispatched table table' io (fresh io) c.valid
                (ground (arith, c.entry io.sector io.device))
                (λ s d h. ground (arith, c.entry s d, h)),
          )
    ]
