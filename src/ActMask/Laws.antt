-- ===== src/ActMask/Laws.antt =====
-- What find_mask_map accepts: every name of the table in any case, and a valid mask each time.
use Prim.Native.String.{String}
use blktrace.Common.{
  ℕ, ◌≡◌, refl, Bool, true, ◌&&◌, ◌+◌, ◌^◌, get_elem?, List, [], ◌∷◌, ◌++◌, some, arith, Bool-cases,
  inl, inr,
}
use blktrace.ActMask.{
  MaskMap, mask_maps, compare_mask_map, find_mask_in, find_mask_map, valid_act_opt,
  declare_mask_map, codes,
}
use blktrace.ActMask.Spelling.{no_small, Spells}

abbrev All : (MaskMap → Type 0) → List MaskMap → Type 0
All P [] = Unit {0}
All P (m ∷ ms) = P m × All P ms

abbrev IsListed : MaskMap → Type 0
IsListed m = (find_mask_map m.short_form ≡ some m.mask) × (find_mask_map m.long_form ≡ some m.mask)

-- The names of the categories of blktrace_api.h, in the order of their bits
abbrev pub category_names : List String
category_names =
    "READ" ∷ "WRITE" ∷ "FLUSH" ∷ "SYNC" ∷ "QUEUE" ∷ "REQUEUE" ∷ "ISSUE" ∷ "COMPLETE" ∷ "FS" ∷ "PC"
    ∷ "NOTIFY" ∷ "AHEAD" ∷ "META" ∷ "DISCARD" ∷ "DRV_DATA" ∷ "FUA" ∷ []

-- The text spells a name, alone or after BLK_TC_, and `m` is the bit of the name.
pub data IsName (s : List ℕ) (m : ℕ) : Type 0 where
  short :
      (k : ℕ) (name : String)
      → get_elem? category_names k ≡ some name
      → m ≡ 2 ^ k
      → Spells s (codes name)
      → IsName s m
  long :
      (k : ℕ) (name : String)
      → get_elem? category_names k ≡ some name
      → m ≡ 2 ^ k
      → Spells s (codes "BLK_TC_" ++ codes name)
      → IsName s m

-- The rows for names whose bits start at k
abbrev rows : ℕ → List String → List MaskMap
rows k [] = []
rows k (n ∷ ns) = declare_mask_map (2 ^ k) n ∷ rows (k + 1) ns

abbrev all_capital : List String → Bool
all_capital [] = true
all_capital (n ∷ ns) = no_small (codes n) && no_small (codes "BLK_TC_" ++ codes n) && all_capital ns

valid-rows : All (λ m. valid_act_opt m.mask ≡ true) mask_maps
unfolding valid_act_opt
valid-rows = (
  refl,
  (
    refl,
    (
      refl,
      (
        refl,
        (
          refl,
          (
            refl,
            (refl, (refl, (refl, (refl, (refl, (refl, (refl, (refl, (refl, (refl, tt)))))))))),
          ),
        ),
      ),
    ),
  ),
)

find_mask_in_row :
    (ms : List MaskMap) (s : List ℕ) {k : ℕ}
    → find_mask_in ms s ≡ some k
    → All (λ m. valid_act_opt m.mask ≡ true) ms
    → valid_act_opt k ≡ true
unfolding find_mask_in
find_mask_in_row [] s e a = cc
find_mask_in_row (m ∷ ms) s e a = elim (Bool-cases (compare_mask_map m s)) [
  | inl hit ↦ ground (arith, a.0)
  | inr miss ↦ find_mask_in_row ms s (ground arith) a.1
]

-- A mask that `-a` names is one that `-A` would accept.
pub valid_act_opt-find_mask_map :
    (s : List ℕ) {k : ℕ} → find_mask_map s ≡ some k → valid_act_opt k ≡ true
unfolding find_mask_map
valid_act_opt-find_mask_map s e = find_mask_in_row mask_maps s e valid-rows
