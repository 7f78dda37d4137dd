-- ===== src/Parse/Processes/Names.antt =====
-- The hash table of process names is a map from pids to the first name given.
use blktrace.Common.{
  ℕ, ◌^◌, ◌<◌, ◌≡◌, refl, ap, sym, ◌∙◌, none, some, if◌then◌else◌, ◌==◌, ==_iff, List, [], ◌∷◌,
  length, get_or, set, get_or-set_self, get_or-set_ne, arith, Option-cases, Bool-cases, inl, inr,
}
use native.Mathlib.Decide.{ℕ_discrete}
use blktrace.Parse.Processes.{
  ProcessPidMap, Processes, Hash, hash_size, chain_ppm, comm_of, ppm_hash_pid, find_ppm,
  add_ppm_hash,
}

module _ (hash : Hash) where
  ppm_hash_pid-lt : (pid : ℕ) → ppm_hash_pid hash pid < 2 ^ 8
  unfolding ppm_hash_pid
  ppm_hash_pid-lt pid = omega arith

  chain_ppm-cons :
      (p q : ℕ) (comm : List ℕ) (l : List ProcessPidMap)
      → chain_ppm q (record { pid = p; comm = comm } ∷ l)
        ≡ (if p == q then some (record { pid = p; comm = comm }) else chain_ppm q l)
  unfolding chain_ppm
  chain_ppm-cons p q comm l = refl

  add_ppm_hash_new :
      (pid : ℕ) (name : List ℕ) (ps : Processes)
      → find_ppm hash pid ps ≡ none
      → add_ppm_hash hash pid name ps ≡ (
        record ps {
          ppm_hash_table = set ps.ppm_hash_table (ppm_hash_pid hash pid) (
              record { pid = pid; comm = comm_of name }
              ∷ get_or ps.ppm_hash_table (ppm_hash_pid hash pid) []);
        },
        record { pid = pid; comm = comm_of name },
      )
  unfolding add_ppm_hash
  add_ppm_hash_new pid name ps e = rw (e, add_ppm_hash)

  add_ppm_hash_old :
      (pid : ℕ) (name : List ℕ) (ps : Processes) {ppm : ProcessPidMap}
      → find_ppm hash pid ps ≡ some ppm
      → add_ppm_hash hash pid name ps ≡ (ps, ppm)
  unfolding add_ppm_hash
  add_ppm_hash_old pid name ps e = rw (e, add_ppm_hash)

  find_ppm_new :
      (p q : ℕ) (comm : List ℕ) (ps : Processes)
      → length ps.ppm_hash_table ≡ hash_size
      → find_ppm hash q (record ps {
        ppm_hash_table =
            set ps.ppm_hash_table
              (ppm_hash_pid hash p)
              (record { pid = p; comm = comm } ∷ get_or ps.ppm_hash_table (ppm_hash_pid hash p) []);
      })
        ≡ (if p == q then some (record { pid = p; comm = comm }) else find_ppm hash q ps)
  unfolding find_ppm
  find_ppm_new p q comm ps len = elim (ℕ_discrete (ppm_hash_pid hash p) (ppm_hash_pid hash q)) [
    | yes e ↦
        rw
          (
            ← e,
            get_or-set_self ps.ppm_hash_table (ppm_hash_pid hash p)
                (record { pid = p; comm = comm }
                  ∷ get_or ps.ppm_hash_table (ppm_hash_pid hash p) [])
                [] (omega (arith, ppm_hash_pid-lt p)),
          )
          (chain_ppm-cons p q comm (get_or ps.ppm_hash_table (ppm_hash_pid hash p) []))
    | no n ↦
        rw
          (get_or-set_ne ps.ppm_hash_table (ppm_hash_pid hash p) (ppm_hash_pid hash q)
            (record { pid = p; comm = comm } ∷ get_or ps.ppm_hash_table (ppm_hash_pid hash p) []) []
            n)
          (elim (Bool-cases (p == q)) [
            | inl e ↦ absurd (n (ap (ppm_hash_pid hash) ((==_iff p q).0 e)))
            | inr e ↦ rw e
          ])
  ]

  find_ppm_old :
      (p q : ℕ) (ps : Processes) {ppm : ProcessPidMap}
      → find_ppm hash p ps ≡ some ppm
      → find_ppm hash q ps ≡ (if p == q then some ppm else find_ppm hash q ps)
  find_ppm_old p q ps h = elim (Bool-cases (p == q)) [
    | inl e ↦ rw e (ap (λ k. find_ppm hash k ps) (sym ((==_iff p q).0 e)) ∙ h)
    | inr e ↦ rw e
  ]

  -- add_ppm_hash(p, name) in a table of PPM_HASH_SIZE chains: afterwards find_ppm finds, for p, the
  -- entry that add_ppm_hash returned, and for every other pid what it found before. If p was there
  -- already, its entry is kept and the name is not used; otherwise the entry has the name, cut to
  -- 15 bytes before its first NUL. This holds for any hash function.
  pub find_ppm-add_ppm_hash :
      (p q : ℕ) (name : List ℕ) (ps : Processes)
      → length ps.ppm_hash_table ≡ hash_size
      → (find_ppm hash q (add_ppm_hash hash p name ps).0
          ≡ (if p == q then some (add_ppm_hash hash p name ps).1 else find_ppm hash q ps))
        × ((add_ppm_hash hash p name ps).1 ≡ elim (find_ppm hash p ps) [
          | some ppm ↦ ppm
          | none ↦ record { pid = p; comm = comm_of name }
        ])
  find_ppm-add_ppm_hash p q name ps len = elim (Option-cases (find_ppm hash p ps)) [
    | inl e ↦ rw (add_ppm_hash_new p name ps e, e) (find_ppm_new p q (comm_of name) ps len, refl)
    | inr (ppm, e) ↦ rw (add_ppm_hash_old p name ps e, e) (find_ppm_old p q ps e, refl)
  ]
