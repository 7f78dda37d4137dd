-- ===== src/Parse/Processes/Stats.antt =====
-- The statistics of the processes are a map from pids to struct io_stats, hashed by pid.
use native.Mathlib.Decide.{ℕ_discrete}
use blktrace.Common.{
  ℕ, ◌<◌, ◌%◌, ◌≡◌, ◌≢◌, refl, ap, ap₂, sym, subst, ◌∙◌, Bool, true, false, Option, none, some,
  if◌then◌else◌, ◌==◌, ==_iff, ==_refl, List, [], ◌∷◌, ◌++◌, length, get_elem?, get_or, set,
  get_or-set_self, get_or-set_ne, get_elem?-append_left, get_elem?-append_last, get_elem?_lt,
  get_elem?-set_self, get_elem?-set_ne, arith, Option-cases, Bool-cases, inl, inr, length-set, All,
}
use mathlib.Core.Option.{some-injective}
use blktrace.Parse.IoStats.{IoStats, zero_stats}
use blktrace.Parse.Processes.{
  ProcessPidMap, PerProcessInfo, Processes, Hash, hash_size, chain_ppi, find_ppi_by_pid, update_ppi,
  new_ppi, add_ppi, unknown, find_process_io_stats, account_process, find_ppm, chain_ppm, comm_of,
  ppm_hash_pid,
}

abbrev by_pid : ℕ → ProcessPidMap → Bool
by_pid pid ppm = ppm.pid == pid

module _ (hash : Hash) where
  -- Entries of a chain stay found when an entry is added at the end, or one is changed.
  chain_ppi-append :
      (test : ProcessPidMap → Bool) (ppis new : List PerProcessInfo) (chain : List ℕ)
      → All (λ i. i < length ppis) chain
      → chain_ppi hash test (ppis ++ new) chain ≡ chain_ppi hash test ppis chain
  unfolding chain_ppi
  chain_ppi-append test ppis new [] a = refl
  chain_ppi-append test ppis new (i ∷ chain) a =
      ground (arith, get_elem?-append_left ppis new i a.0, chain_ppi-append test ppis new chain a.1)

  -- What a walk finds passes the test.
  chain_ppi-some :
      (test : ProcessPidMap → Bool) (ppis : List PerProcessInfo) (chain : List ℕ) {i : ℕ}
      → chain_ppi hash test ppis chain ≡ some i
      → (p : PerProcessInfo) × (get_elem? ppis i ≡ some p) × (test p.ppm ≡ true)
  unfolding chain_ppi
  chain_ppi-some test ppis [] e = cc
  chain_ppi-some test ppis (j ∷ chain) {i} e = elim (Option-cases (get_elem? ppis j)) [
    | inl n ↦ chain_ppi-some test ppis chain (ground (arith, n))
    | inr (p, q) ↦ elim (Bool-cases (test p.ppm)) [
      | inl hit ↦
          let same : j ≡ i = ground (arith, q, hit) in
          (p, subst (λ k. get_elem? ppis k ≡ some p) same q, hit)
      | inr miss ↦ chain_ppi-some test ppis chain (ground (arith, q, miss))
    ]
  ]

  -- A change that keeps the entry's ppm keeps what a walk finds.
  chain_ppi-set :
      (test : ProcessPidMap → Bool) (ppis : List PerProcessInfo) (k : ℕ) (old new : PerProcessInfo)
      (chain : List ℕ)
      → get_elem? ppis k ≡ some old
      → new.ppm ≡ old.ppm
      → chain_ppi hash test (set ppis k new) chain ≡ chain_ppi hash test ppis chain
  unfolding chain_ppi
  chain_ppi-set test ppis k old new [] q same = refl
  chain_ppi-set test ppis k old new (i ∷ chain) q same = elim (ℕ_discrete k i) [
    | yes e ↦
        let now = get_elem?-set_self ppis k new (get_elem?_lt ppis k q) in
        ground (
          arith,
          subst (λ j. get_elem? (set ppis k new) j ≡ some new) e now,
          subst (λ j. get_elem? ppis j ≡ some old) e q,
          ap test same,
          chain_ppi-set test ppis k old new chain q same,
        )
    | no n ↦
        ground (arith, get_elem?-set_ne ppis new n, chain_ppi-set test ppis k old new chain q same)
  ]

  chain_ppi_new :
      (test : ProcessPidMap → Bool) (ppis : List PerProcessInfo) (new : PerProcessInfo)
      (chain : List ℕ)
      → All (λ i. i < length ppis) chain
      → chain_ppi hash test (ppis ++ new ∷ []) (length ppis ∷ chain)
        ≡ (if test new.ppm then some (length ppis) else chain_ppi hash test ppis chain)
  unfolding chain_ppi
  chain_ppi_new test ppis new chain a =
      ground (arith, get_elem?-append_last ppis new, chain_ppi-append test ppis (new ∷ []) chain a)

  abbrev bucket : ℕ → ℕ
  bucket pid = hash.jhash_1word pid % hash_size

  -- The tables have their sizes, and every number in a chain is that of an entry.
  pub record IsTable (ps : Processes) : Type 0 where
    pub ppm_size : length ps.ppm_hash_table ≡ hash_size
    pub ppi_size : length ps.ppi_hash_table ≡ hash_size
    pub chains : (h : ℕ) → All (λ i. i < length ps.ppis) (get_or ps.ppi_hash_table h [])

  -- The statistics of the entry that a search finds; none are zeros.
  abbrev entry_stats : List PerProcessInfo → Option ℕ → IoStats
  entry_stats ppis none = zero_stats
  entry_stats ppis (some i) = elim (get_elem? ppis i) [ none ↦ zero_stats | some p ↦ p.io_stats ]

  -- The statistics kept for a pid.
  pub stats_of : ℕ → Processes → IoStats
  stats_of pid ps = entry_stats ps.ppis (find_ppi_by_pid hash pid ps)

  entry_stats-last :
      (ppis : List PerProcessInfo) (ppm : ProcessPidMap)
      → entry_stats (ppis ++ new_ppi hash ppm ∷ []) (some (length ppis)) ≡ zero_stats
  entry_stats-last ppis ppm = rw (get_elem?-append_last ppis (new_ppi hash ppm), entry_stats)

  entry_stats-append :
      (ppis new : List PerProcessInfo) (i : ℕ)
      → i < length ppis
      → entry_stats (ppis ++ new) (some i) ≡ entry_stats ppis (some i)
  entry_stats-append ppis new i h = rw (get_elem?-append_left ppis new i h, entry_stats)

  module _ (ps : Processes) (v : IsTable ps) where
    -- add_ppi gives an entry of zeros to its pid, and changes no other pid's.
    find-add_ppi :
        (ppm : ProcessPidMap) (q : ℕ)
        → find_ppi_by_pid hash q (add_ppi hash true ppm ps).0
          ≡ (if ppm.pid == q then some (length ps.ppis) else find_ppi_by_pid hash q ps)
    unfolding find_ppi_by_pid add_ppi chain_ppi
    find-add_ppi ppm q = elim (ℕ_discrete (bucket ppm.pid) (bucket q)) [
      | yes e ↦
          rw
            (
              ← e,
              get_or-set_self ps.ppi_hash_table (bucket ppm.pid)
                  (length ps.ppis ∷ get_or ps.ppi_hash_table (bucket ppm.pid) []) []
                  (omega (arith, v.ppi_size)),
              find_ppi_by_pid,
            )
            (chain_ppi_new (by_pid q) ps.ppis (new_ppi hash ppm)
              (get_or ps.ppi_hash_table (bucket ppm.pid) []) (v.chains (bucket ppm.pid)))
      | no n ↦
          rw
            (
              get_or-set_ne ps.ppi_hash_table (bucket ppm.pid) (bucket q)
                  (length ps.ppis ∷ get_or ps.ppi_hash_table (bucket ppm.pid) []) [] n,
              find_ppi_by_pid,
            )
            (elim (Bool-cases (ppm.pid == q)) [
              | inl e ↦ absurd (n (ap bucket ((==_iff ppm.pid q).0 e)))
              | inr e ↦ rw e (
                  chain_ppi-append (by_pid q) ps.ppis (new_ppi hash ppm ∷ [])
                    (get_or ps.ppi_hash_table (bucket q) []) (v.chains (bucket q)))
            ])
    ]

    find_lt :
        (q : ℕ) {i : ℕ}
        → find_ppi_by_pid hash q ps ≡ some i
        → (p : PerProcessInfo) × (get_elem? ps.ppis i ≡ some p) × (p.ppm.pid ≡ q)
    unfolding find_ppi_by_pid
    find_lt q e =
        let (p, g, t) =
          chain_ppi-some (by_pid q) ps.ppis (get_or ps.ppi_hash_table (bucket q) []) e in
        (p, g, (==_iff p.ppm.pid q).0 t)

    -- A new entry of zeros changes no statistics.
    stats-add_ppi :
        (ppm : ProcessPidMap) (q : ℕ)
        → find_ppi_by_pid hash ppm.pid ps ≡ none
        → stats_of q (add_ppi hash true ppm ps).0 ≡ stats_of q ps
    unfolding stats_of add_ppi
    stats-add_ppi ppm q e =
        ap (entry_stats (ps.ppis ++ new_ppi hash ppm ∷ [])) (find-add_ppi ppm q)
        ∙ elim (Bool-cases (ppm.pid == q)) [
          | inl same ↦
              let gone : find_ppi_by_pid hash q ps ≡ none =
                subst (λ k. find_ppi_by_pid hash k ps ≡ none) ((==_iff ppm.pid q).0 same) e in
              rw (same, gone) (entry_stats-last ps.ppis ppm)
          | inr other ↦ rw other (kept (find_ppi_by_pid hash q ps) refl)
        ]
      where
        kept :
            (o : Option ℕ)
            → find_ppi_by_pid hash q ps ≡ o
            → entry_stats (ps.ppis ++ new_ppi hash ppm ∷ []) (find_ppi_by_pid hash q ps)
              ≡ entry_stats ps.ppis (find_ppi_by_pid hash q ps)
        kept none n = rw n
        kept (some i) n = rw n (
            entry_stats-append ps.ppis (new_ppi hash ppm ∷ []) i
              (get_elem?_lt ps.ppis i (find_lt q n).1))

  -- The entry for a pid has been found or made: the statistics of no pid have changed.
  record Located (pid : ℕ) (ps : Processes) (out : Processes × ℕ) : Type 0 where
    found : find_ppi_by_pid hash pid out.0 ≡ some out.1
    same : (q : ℕ) → stats_of q out.0 ≡ stats_of q ps

  add_ppi-Located :
      (ps : Processes) (v : IsTable ps) (ppm : ProcessPidMap)
      → find_ppi_by_pid hash ppm.pid ps ≡ none
      → Located ppm.pid ps (add_ppi hash true ppm ps)
  add_ppi-Located ps v ppm e = record {
    found = find-add_ppi ps v ppm ppm.pid ∙ rw (==_refl ppm.pid) (unfold add_ppi in refl);
    same = λ q. stats-add_ppi ps v ppm q e;
  }

  -- The names do not matter to the statistics.
  find_ppi-renamed :
      (ps : Processes) (names : List (List ProcessPidMap)) (q : ℕ)
      → find_ppi_by_pid hash q (record ps { ppm_hash_table = names }) ≡ find_ppi_by_pid hash q ps
  unfolding find_ppi_by_pid
  find_ppi-renamed ps names q = refl

  stats-renamed :
      (ps : Processes) (names : List (List ProcessPidMap)) (q : ℕ)
      → stats_of q (record ps { ppm_hash_table = names }) ≡ stats_of q ps
  unfolding stats_of find_ppi_by_pid
  stats-renamed ps names q = refl

  chain_ppm-pid :
      (pid : ℕ) (l : List ProcessPidMap) {ppm : ProcessPidMap}
      → chain_ppm pid l ≡ some ppm
      → ppm.pid ≡ pid
  unfolding chain_ppm
  chain_ppm-pid pid [] e = cc
  chain_ppm-pid pid (x ∷ l) {ppm} e = ground (arith, chain_ppm-pid pid l {ppm = ppm})

  find_process_io_stats-Located :
      (ps : Processes) (v : IsTable ps) (pid : ℕ)
      → Located pid ps (find_process_io_stats hash true pid ps)
  unfolding find_process_io_stats
  find_process_io_stats-Located ps v pid = elim (Option-cases (find_ppi_by_pid hash pid ps)) [
    | inr (i, e) ↦ rw (e, find_process_io_stats) (record { found = e; same = λ q. refl })
    | inl e ↦ elim (Option-cases (find_ppm hash pid ps)) [
      | inl n ↦
          let names = set ps.ppm_hash_table (ppm_hash_pid hash pid) (
            record { pid = pid; comm = comm_of (unknown hash) }
            ∷ get_or ps.ppm_hash_table (ppm_hash_pid hash pid) []) in
          let k =
            add_ppi-Located (record ps { ppm_hash_table = names })
              (record {
                ppm_size = length-set ps.ppm_hash_table (ppm_hash_pid hash pid) _ ∙ v.ppm_size;
                ppi_size = v.ppi_size;
                chains = v.chains;
              })
              (record { pid = pid; comm = comm_of (unknown hash) })
              (find_ppi-renamed ps names pid ∙ e) in
          rw (e, n, find_process_io_stats)
            (record { found = k.found; same = λ q. k.same q ∙ stats-renamed ps names q })
      | inr (ppm, n) ↦
          let own = chain_ppm-pid pid (get_or ps.ppm_hash_table (ppm_hash_pid hash pid) []) n in
          let k =
            add_ppi-Located ps v ppm (subst (λ j. find_ppi_by_pid hash j ps ≡ none) (sym own) e) in
          rw (e, n, find_process_io_stats)
            (subst (λ j. Located j ps (add_ppi hash true ppm ps)) own k)
    ]
  ]

  entry_stats-set_self :
      (ppis : List PerProcessInfo) (i : ℕ) (p new : PerProcessInfo)
      → get_elem? ppis i ≡ some p
      → entry_stats (set ppis i new) (some i) ≡ new.io_stats
  entry_stats-set_self ppis i p new g =
      rw (get_elem?-set_self ppis i new (get_elem?_lt ppis i g), entry_stats)

  entry_stats-set_ne :
      (ppis : List PerProcessInfo) (i j : ℕ) (new : PerProcessInfo)
      → i ≢ j
      → entry_stats (set ppis i new) (some j) ≡ entry_stats ppis (some j)
  entry_stats-set_ne ppis i j new n = rw (get_elem?-set_ne ppis new n, entry_stats)

  entry_stats-some :
      (ppis : List PerProcessInfo) (i : ℕ) {p : PerProcessInfo}
      → get_elem? ppis i ≡ some p
      → entry_stats ppis (some i) ≡ p.io_stats
  entry_stats-some ppis i g = rw (g, entry_stats)

  -- Two pids do not share an entry.
  entries-ne :
      (ps : Processes) (pid q i j : ℕ)
      → find_ppi_by_pid hash pid ps ≡ some i
      → find_ppi_by_pid hash q ps ≡ some j
      → pid == q ≡ false
      → i ≢ j
  unfolding find_ppi_by_pid
  entries-ne ps pid q i j e o ne same =
      let (p, g, t) =
        chain_ppi-some (by_pid pid) ps.ppis (get_or ps.ppi_hash_table (bucket pid) []) e in
      let (u, h, w) =
        chain_ppi-some (by_pid q) ps.ppis (get_or ps.ppi_hash_table (bucket q) []) o in
      let both : p ≡ u =
        some-injective p u (sym g ∙ (subst (λ k. get_elem? ps.ppis k ≡ some u) (sym same) h)) in
      let own : p.ppm.pid ≡ q =
        ap (λ (x : PerProcessInfo). x.ppm.pid) both ∙ (==_iff u.ppm.pid q).0 w in
      cc (sym ne, sym (==_refl q), ap (λ k. k == q) (sym ((==_iff p.ppm.pid pid).0 t) ∙ own))

  module _ (ps : Processes) (pid q i : ℕ) (p new : PerProcessInfo)
      (e : find_ppi_by_pid hash pid ps ≡ some i) (g : get_elem? ps.ppis i ≡ some p) where
    entry_stats-changed :
        (o : Option ℕ)
        → find_ppi_by_pid hash q ps ≡ o
        → entry_stats (set ps.ppis i new) o
          ≡ (if pid == q then new.io_stats else entry_stats ps.ppis o)
    entry_stats-changed o h = elim (Bool-cases (pid == q)) [
      | inl same ↦
          let here : o ≡ some i =
            sym h ∙ (subst (λ k. find_ppi_by_pid hash k ps ≡ some i) ((==_iff pid q).0 same) e) in
          rw (same, here) (entry_stats-set_self ps.ppis i p new g)
      | inr other ↦ rw other (kept o h other)
    ]
      where
        kept :
            (k : Option ℕ)
            → find_ppi_by_pid hash q ps ≡ k
            → pid == q ≡ false
            → entry_stats (set ps.ppis i new) k ≡ entry_stats ps.ppis k
        kept none n ne = refl
        kept (some j) n ne = entry_stats-set_ne ps.ppis i j new (entries-ne ps pid q i j e n ne)

  -- The statistics of one entry are changed.
  stats-update_ppi :
      (ps : Processes) (pid q i : ℕ) (f : IoStats → IoStats)
      → find_ppi_by_pid hash pid ps ≡ some i
      → stats_of q (update_ppi hash i (λ ppi. record ppi { io_stats = f ppi.io_stats }) ps)
        ≡ (if pid == q then f (stats_of pid ps) else stats_of q ps)
  unfolding stats_of update_ppi find_ppi_by_pid
  stats-update_ppi ps pid q i f e =
      let (p, g, t) =
        chain_ppi-some (by_pid pid) ps.ppis (get_or ps.ppi_hash_table (bucket pid) []) e in
      let new : PerProcessInfo = record p { io_stats = f p.io_stats } in
      let chain = get_or ps.ppi_hash_table (bucket q) [] in
      rw (g, update_ppi)
        (ap (entry_stats (set ps.ppis i new))
            (chain_ppi-set (by_pid q) ps.ppis i p new chain g refl)
          ∙ (entry_stats-changed ps pid q i p new e g (find_ppi_by_pid hash q ps) refl
              ∙ ap (λ x. if pid == q then f x else stats_of q ps)
                  (sym (ap (entry_stats ps.ppis) e ∙ entry_stats-some ps.ppis i g))))

  -- account_process(pid, f), by pid: f is applied to the statistics of that pid, which are zeros if
  -- it had none yet, and the statistics of every other pid stay as they are. This holds for any
  -- hash function, in tables whose chains hold numbers of entries.
  pub stats-account_process :
      (ps : Processes) (pid q : ℕ) (f : IoStats → IoStats)
      → IsTable ps
      → stats_of q (account_process hash true pid f ps)
        ≡ (if pid == q then f (stats_of pid ps) else stats_of q ps)
  unfolding account_process
  stats-account_process ps pid q f v =
      let k = find_process_io_stats-Located ps v pid in
      let out = find_process_io_stats hash true pid ps in
      stats-update_ppi out.0 pid q out.1 f k.found
      ∙ ap₂ (λ x y. if pid == q then f x else y) (k.same pid) (k.same q)
