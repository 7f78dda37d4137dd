-- ===== src/Iowatcher/Lines/Latency.antt =====
-- The latency of a request: from its dispatch to its completion, with other requests between.
use blktrace.Common.{
  ℕ, ◌≡◌, refl, sym, ◌∙◌, subst, false, ◌&&◌, Option, none, some, ◌==◌, Bool-cases, Option-cases,
  inl, inr, OnSome, OnSome-bind, OnSome-weaken,
}
use blktrace.Trace.Record.{BlkIoTrace}
use blktrace.Iowatcher.{Found}
use blktrace.Iowatcher.Pending.{
  PendingIo, Table, io_hash_table_search, hash_queued_io, hash_completed_io, del_pio,
}
use blktrace.Iowatcher.Pending.Laws.{IsValid}
use blktrace.Iowatcher.Pending.Operations.{
  Changed, del_pio-Changed, search-own, hash_queued_io-found, hash_queued_io-Changed,
  hash_dispatched_io-Dispatched,
}
use blktrace.Iowatcher.Pending.{hash_dispatched_io}
use blktrace.Iowatcher.Pending.Operations.{Dispatched}
use mathlib.Core.Option
use blktrace.Iowatcher.Lines.Ways.{
  TputWay, no_tput, read_tput, write_tput, read_fault, write_fault, add_tput-TputWay, IopWay,
  no_iop, one_iop, iop_fault, add_iop-IopWay, PendingWay, no_request, queued, requeued, issued,
  issue_fault, add_pending_io-PendingWay, CompletedWay, no_completion, completed, latency_fault,
  add_completed_io-CompletedWay,
}
use blktrace.Iowatcher.Lines.{Graphs, add_tput, add_iop, add_pending_io, add_record}

-- The request with the sector s on the device d is in flight, since the time t.
pub record InFlight (s d t : ℕ) (table : Table) : Type 0 where
  pub valid : IsValid table
  pub pio : PendingIo
  pub found : io_hash_table_search table s d ≡ some pio
  pub since : pio.dispatch_time ≡ t

-- The requests in flight and the graph of the latencies are the same.
abbrev pub Same : Graphs → Graphs → Type 0
Same g g' = (g'.io_hash_table ≡ g.io_hash_table) × (g'.latency ≡ g.latency)

TputWay-Same :
    {found : Found} {io : BlkIoTrace} {g : Graphs} {o : Option Graphs}
    → TputWay found io g o
    → OnSome (Same g) o
TputWay-Same (no_tput _) = (refl, refl)
TputWay-Same (read_tput _ _ _) = (refl, refl)
TputWay-Same (write_tput _ _ _) = (refl, refl)
TputWay-Same (read_fault _) = tt
TputWay-Same (write_fault _) = tt

IopWay-Same :
    {found : Found} {io : BlkIoTrace} {g : Graphs} {o : Option Graphs}
    → IopWay found io g o
    → OnSome (Same g) o
IopWay-Same (no_iop _) = (refl, refl)
IopWay-Same (one_iop _ _) = (refl, refl)
IopWay-Same (iop_fault _) = tt

pub add_tput-Same :
    (found : Found) (io : BlkIoTrace) (g : Graphs) → OnSome (Same g) (add_tput found io g)
add_tput-Same found io g = TputWay-Same (add_tput-TputWay found io g)

pub add_iop-Same :
    (found : Found) (io : BlkIoTrace) (g : Graphs) → OnSome (Same g) (add_iop found io g)
add_iop-Same found io g = IopWay-Same (add_iop-IopWay found io g)

module _ (s d t : ℕ) where
  elsewhere :
      (table table' : Table) (a b : ℕ) (o : Option PendingIo)
      → Changed table a b o table'
      → (s == a) && (d == b) ≡ false
      → InFlight s d t table
      → InFlight s d t table'
  elsewhere table table' a b o c n f = record {
    valid = c.valid;
    pio = f.pio;
    found = c.entry s d ∙ (rw n f.found);
    since = f.since;
  }

  abbrev pub Flies : Graphs → Type 0
  Flies g = InFlight s d t g.io_hash_table

  module _ (nan64 : ℕ) (found : Found) (io : BlkIoTrace)
      (n : (s == io.sector) && (d == io.device) ≡ false) where
    add_tput-Flies : (g : Graphs) → Flies g → OnSome Flies (add_tput found io g)
    add_tput-Flies g f =
        OnSome-weaken (Same g) Flies (λ g' e. subst (InFlight s d t) (sym e.0) f)
          (add_tput found io g) (add_tput-Same found io g)

    add_iop-Flies : (g : Graphs) → Flies g → OnSome Flies (add_iop found io g)
    add_iop-Flies g f =
        OnSome-weaken (Same g) Flies (λ g' e. subst (InFlight s d t) (sym e.0) f)
          (add_iop found io g) (add_iop-Same found io g)

    del_pio-InFlight :
        (table : Table) (pio : PendingIo)
        → pio.sector ≡ io.sector
        → pio.device ≡ io.device
        → InFlight s d t table
        → InFlight s d t (del_pio table pio)
    del_pio-InFlight table pio a b f =
        elsewhere table (del_pio table pio) pio.sector pio.device none
          (del_pio-Changed table pio f.valid) (rw (a, b) n) f

    add_queued-Flies :
        (g : Graphs)
        → Flies g
        → OnSome (λ (q : PendingIo × Table). InFlight s d t q.1) (hash_queued_io g.io_hash_table io)
    add_queued-Flies g f =
        elim (Option-cases (io_hash_table_search g.io_hash_table io.sector io.device)) [
          | inl e ↦
              let (table, h, c) = hash_queued_io-Changed g.io_hash_table io f.valid e in
              rw h (elsewhere g.io_hash_table table io.sector io.device _ c n f)
          | inr (q, e) ↦ rw (hash_queued_io-found g.io_hash_table io q e) tt
        ]

    dispatched-Flies :
        (g : Graphs) (pio : PendingIo) (table : Table)
        → hash_dispatched_io g.io_hash_table io ≡ some (pio, table)
        → Flies g
        → (pio.sector ≡ io.sector) × (pio.device ≡ io.device) × InFlight s d t table
    dispatched-Flies g pio table e f =
        let (pio', table', e', di') = hash_dispatched_io-Dispatched g.io_hash_table io f.valid in
        let di =
          subst (λ (q : PendingIo × Table). Dispatched g.io_hash_table io q.0 q.1)
            (Option.some-injective _ _ (sym e' ∙ e)) di' in
        (
          di.sector,
          di.device,
          elsewhere g.io_hash_table table io.sector io.device (some pio) di.change n f,
        )

    PendingWay-Flies :
        {g : Graphs} {o : Option Graphs} → PendingWay nan64 found io g o → Flies g → OnSome Flies o
    PendingWay-Flies no_request f = f
    PendingWay-Flies {g} (queued e) f =
        subst (OnSome (λ (q : PendingIo × Table). InFlight s d t q.1)) e (add_queued-Flies g f)
    PendingWay-Flies requeued f = f
    PendingWay-Flies {g} (issued {pio} {table} e _) f =
        let (a, b, f1) = dispatched-Flies g pio table e f in
        elim (Bool-cases found.completion) [
          | inl c ↦ rw c f1
          | inr c ↦ rw c (del_pio-InFlight table pio a b f1)
        ]
    PendingWay-Flies (issue_fault _) f = tt

    CompletedWay-Flies :
        {g : Graphs} {o : Option Graphs}
        → CompletedWay nan64 found io g o
        → Flies g
        → OnSome Flies o
    unfolding hash_completed_io
    CompletedWay-Flies no_completion f = f
    CompletedWay-Flies {g} (completed {pio} e _) f =
        let own = search-own g.io_hash_table io.sector io.device e in
        del_pio-InFlight g.io_hash_table pio own.0 own.1 f
    CompletedWay-Flies (latency_fault _ _) f = tt

    pub add_record-Flies : (g : Graphs) → Flies g → OnSome Flies (add_record nan64 found io g)
    unfolding add_record
    add_record-Flies g f =
        OnSome-bind Flies Flies (add_tput found io g) _ (add_tput-Flies g f) λ g1 f1.
          OnSome-bind Flies Flies (add_iop found io g1) _ (add_iop-Flies g1 f1) λ g2 f2.
            OnSome-bind Flies Flies (add_pending_io nan64 found io g2) _
              (PendingWay-Flies (add_pending_io-PendingWay nan64 found io g2) f2)
              λ g3 f3. CompletedWay-Flies (add_completed_io-CompletedWay nan64 found io g3) f3
