-- ===== src/Parse/Processes.antt =====
-- The process tables of blkparse.c: names by pid (ppm), and statistics by pid or by name (ppi).
-- Nodes are never freed. A struct process_pid_map is never changed once it is in its table, so a
-- pointer to it is the value; a struct per_process_info is named by its number in `ppis`, which
-- lists all of them in the order in which they were allocated.
pub mod Names
pub mod Stats
use blktrace.Common.{
  ℕ, zero, suc, ◌+◌, ◌%◌, ◌^◌, Bool, true, false, Option, none, some, if◌then◌else◌, ◌==◌, List, [],
  ◌∷◌, ◌++◌, length, get_elem?, get_or, set, take,
}
use blktrace.Parse.IoStats.{IoStats, zero_stats}

-- struct process_pid_map; `comm` up to its final NUL.
pub record ProcessPidMap : Type 0 where
  pub pid : ℕ
  pub comm : List ℕ

-- A value for each direction: [0] for reads, [1] for writes.
pub record Pair : Type 0 where
  pub reads : ℕ
  pub writes : ℕ

abbrev pub at_rw : Pair → Bool → ℕ
at_rw p true = p.writes
at_rw p false = p.reads

abbrev pub set_rw : Pair → Bool → ℕ → Pair
set_rw p true v = record p { writes = v }
set_rw p false v = record p { reads = v }

-- struct per_process_info
pub record PerProcessInfo : Type 0 where
  pub ppm : ProcessPidMap
  pub io_stats : IoStats
  pub more_than_one : Bool
  pub longest_allocation_wait : Pair
  pub longest_dispatch_wait : Pair
  pub longest_completion_wait : Pair

-- The static tables. The chains of ppi_hash_table and the list ppi_list hold numbers of `ppis`.
pub record Processes : Type 0 where
  pub ppm_hash_table : List (List ProcessPidMap)
  pub ppis : List PerProcessInfo
  pub ppi_hash_table : List (List ℕ)
  pub ppi_list : List ℕ
  pub ppi_list_entries : ℕ

-- jhash_1word(a, JHASH_RANDOM) and jhash(name, 16, JHASH_RANDOM) of jhash.h
pub record Hash : Type 0 where
  pub jhash_1word : ℕ → ℕ
  pub jhash : List ℕ → ℕ

-- PPM_HASH_SIZE and PPI_HASH_SIZE; `& (size - 1)` is `% size`.
abbrev pub hash_size : ℕ
hash_size = 2 ^ 8

-- The walk along a chain of ppm_hash_table.
unfoldable pub chain_ppm : ℕ → List ProcessPidMap → Option ProcessPidMap
chain_ppm pid [] = none
chain_ppm pid (ppm ∷ rest) = if ppm.pid == pid then some ppm else chain_ppm pid rest

-- A text of C up to its first NUL byte
unfoldable pub until_nul : List ℕ → List ℕ
until_nul [] = []
until_nul (c ∷ cs) = if c == 0 then [] else c ∷ until_nul cs

-- strncpy into char comm[16], whose last byte is then set to NUL
unfoldable pub comm_of : List ℕ → List ℕ
unfolding until_nul
comm_of name = take 15 (until_nul name)

module _ (hash : Hash) where
  open hash use {jhash_1word, jhash}

  unfoldable pub ppm_hash_pid : ℕ → ℕ
  ppm_hash_pid pid = jhash_1word pid % hash_size

  unfoldable pub find_ppm : ℕ → Processes → Option ProcessPidMap
  unfolding ppm_hash_pid chain_ppm
  find_ppm pid ps = chain_ppm pid (get_or ps.ppm_hash_table (ppm_hash_pid pid) [])

  -- The state afterwards and the entry of the pid. A pid that has a name keeps it.
  unfoldable pub add_ppm_hash : ℕ → List ℕ → Processes → Processes × ProcessPidMap
  unfolding find_ppm comm_of
  add_ppm_hash pid name ps = elim (find_ppm pid ps) [
    | some ppm ↦ (ps, ppm)
    | none ↦
        let ppm : ProcessPidMap = record { pid = pid; comm = comm_of name } in
        let idx = ppm_hash_pid pid in
        (
          record ps {
            ppm_hash_table = set ps.ppm_hash_table idx (ppm ∷ get_or ps.ppm_hash_table idx []);
          },
          ppm,
        )
  ]

  unfoldable pub find_process_name : ℕ → Processes → Option (List ℕ)
  unfolding find_ppm
  find_process_name pid ps = elim (find_ppm pid ps) [ none ↦ none | some ppm ↦ some ppm.comm ]

  -- ppi_hash_pid, ppi_hash_name and ppi_hash
  unfoldable pub ppi_hash : Bool → ProcessPidMap → ℕ
  ppi_hash true ppm = jhash_1word ppm.pid % hash_size
  ppi_hash false ppm = jhash ppm.comm % hash_size

  -- The walk along a chain of ppi_hash_table, by a test on the entries' ppm
  unfoldable pub chain_ppi : (ProcessPidMap → Bool) → List PerProcessInfo → List ℕ → Option ℕ
  chain_ppi test ppis [] = none
  chain_ppi test ppis (i ∷ rest) =
      let later = chain_ppi test ppis rest in
      elim (get_elem? ppis i) [ none ↦ later | some ppi ↦ if test ppi.ppm then some i else later ]

  unfoldable pub find_ppi_by_pid : ℕ → Processes → Option ℕ
  unfolding chain_ppi
  find_ppi_by_pid pid ps =
      chain_ppi (λ ppm. ppm.pid == pid) ps.ppis
        (get_or ps.ppi_hash_table (jhash_1word pid % hash_size) [])

  -- strcmp(a, b) == 0
  unfoldable pub strcmp_eq : List ℕ → List ℕ → Bool
  strcmp_eq [] [] = true
  strcmp_eq [] (b ∷ bs) = false
  strcmp_eq (a ∷ xs) [] = false
  strcmp_eq (a ∷ xs) (b ∷ bs) = if a == b then strcmp_eq xs bs else false

  unfoldable pub find_ppi_by_name : List ℕ → Processes → Option ℕ
  unfolding chain_ppi strcmp_eq
  find_ppi_by_name name ps =
      chain_ppi (λ ppm. strcmp_eq ppm.comm name) ps.ppis
        (get_or ps.ppi_hash_table (jhash name % hash_size) [])

  -- A change to the entry with a number
  unfoldable pub update_ppi : ℕ → (PerProcessInfo → PerProcessInfo) → Processes → Processes
  update_ppi i f ps = elim (get_elem? ps.ppis i) [
    | none ↦ ps
    | some ppi ↦ record ps { ppis = set ps.ppis i (f ppi) }
  ]

  -- if (ppi && ppi->ppm->pid != pid) ppi->more_than_one = 1
  unfoldable pub mark_shared : ℕ → Option ℕ → Processes → Processes
  unfolding update_ppi
  mark_shared pid none ps = ps
  mark_shared pid (some i) ps =
      update_ppi i (λ ppi. if ppi.ppm.pid == pid then ppi else record ppi { more_than_one = true })
        ps

  -- find_ppi, by the flag ppi_hash_by_pid
  unfoldable pub find_ppi : Bool → ℕ → Processes → Processes × Option ℕ
  unfolding find_ppi_by_pid find_process_name find_ppi_by_name mark_shared
  find_ppi true pid ps = (ps, find_ppi_by_pid pid ps)
  find_ppi false pid ps = elim (find_process_name pid ps) [
    | none ↦ (ps, none)
    | some name ↦ let i = find_ppi_by_name name ps in (mark_shared pid i ps, i)
  ]

  abbrev pub new_ppi : ProcessPidMap → PerProcessInfo
  new_ppi ppm = record {
    ppm = ppm;
    io_stats = zero_stats;
    more_than_one = false;
    longest_allocation_wait = record { reads = 0; writes = 0 };
    longest_dispatch_wait = record { reads = 0; writes = 0 };
    longest_completion_wait = record { reads = 0; writes = 0 };
  }

  -- malloc and memset of an entry, add_ppi_to_hash and add_ppi_to_list
  unfoldable pub add_ppi : Bool → ProcessPidMap → Processes → Processes × ℕ
  unfolding ppi_hash
  add_ppi by_pid ppm ps =
      let i = length ps.ppis in
      let idx = ppi_hash by_pid ppm in
      (
        record ps {
          ppis = ps.ppis ++ new_ppi ppm ∷ [];
          ppi_hash_table = set ps.ppi_hash_table idx (i ∷ get_or ps.ppi_hash_table idx []);
          ppi_list = i ∷ ps.ppi_list;
          ppi_list_entries = ps.ppi_list_entries + 1;
        },
        i,
      )

  -- "unknown"
  abbrev pub unknown : List ℕ
  unknown = 117 ∷ 110 ∷ 107 ∷ 110 ∷ 111 ∷ 119 ∷ 110 ∷ []

  -- find_process_io_stats: the tables, and the entry whose io_stats it points to. (find_ppm and
  -- add_ppm_hash(pid, "unknown") together are add_ppm_hash.)
  unfoldable pub find_process_io_stats : Bool → ℕ → Processes → Processes × ℕ
  unfolding find_ppi add_ppm_hash add_ppi
  find_process_io_stats by_pid pid ps =
      let (ps', i) = find_ppi by_pid pid ps in
      elim i [
        | some k ↦ (ps', k)
        | none ↦ let (ps'', ppm) = add_ppm_hash pid unknown ps' in add_ppi by_pid ppm ps''
      ]

  -- A function __account_* applied to the io_stats of the process of a pid
  unfoldable pub account_process : Bool → ℕ → (IoStats → IoStats) → Processes → Processes
  unfolding find_process_io_stats update_ppi
  account_process by_pid pid f ps =
      let (ps', i) = find_process_io_stats by_pid pid ps in
      update_ppi i (λ ppi. record ppi { io_stats = f ppi.io_stats }) ps'
