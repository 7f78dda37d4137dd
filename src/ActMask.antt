-- ===== src/ActMask.antt =====
-- act_mask.c: the masks that `-a` names, and the range check of `-A`.
mod Spelling
pub mod Laws
use Prim.Native.Char.{code}
use Prim.Native.String.{String}
use blktrace.Common.{
  ℕ, ◌+◌, ◌-◌, ◌^◌, Bool, true, false, ◌&&◌, ◌||◌, List, [], ◌∷◌, ◌++◌, Option, none, some,
  if◌then◌else◌, ◌==◌, leb, ltb,
}
use blktrace.Trace.Tc

-- The bytes of an ASCII text.
abbrev pub codes : String → List ℕ
codes String.[] = []
codes (String.◌∷◌ c s) = code c ∷ codes s

-- tolower of the C locale
unfoldable pub tolower : ℕ → ℕ
tolower c = if leb b'A' c && leb c b'Z' then c + 32 else c

-- `!strcasecmp(a, b)`: the texts are equal up to the case of their ASCII letters.
unfoldable pub strcasecmp_eq : List ℕ → List ℕ → Bool
unfolding tolower
strcasecmp_eq [] [] = true
strcasecmp_eq (a ∷ l) (b ∷ r) = (tolower a == tolower b) && strcasecmp_eq l r
strcasecmp_eq [] (b ∷ r) = false
strcasecmp_eq (a ∷ l) [] = false

-- struct mask_map. DECLARE_MASK_MAP puts "BLK_TC_" before the short form.
pub record MaskMap : Type 0 where
  pub mask : ℕ
  pub short_form : List ℕ
  pub long_form : List ℕ

abbrev pub declare_mask_map : ℕ → String → MaskMap
declare_mask_map m s = record {
  mask = m;
  short_form = codes s;
  long_form = codes "BLK_TC_" ++ codes s;
}

abbrev pub mask_maps : List MaskMap
mask_maps =
    declare_mask_map Tc.read "READ"
    ∷ declare_mask_map Tc.write "WRITE"
    ∷ declare_mask_map Tc.flush "FLUSH"
    ∷ declare_mask_map Tc.sync "SYNC"
    ∷ declare_mask_map Tc.queue "QUEUE"
    ∷ declare_mask_map Tc.requeue "REQUEUE"
    ∷ declare_mask_map Tc.issue "ISSUE"
    ∷ declare_mask_map Tc.complete "COMPLETE"
    ∷ declare_mask_map Tc.fs "FS"
    ∷ declare_mask_map Tc.pc "PC"
    ∷ declare_mask_map Tc.notify "NOTIFY"
    ∷ declare_mask_map Tc.ahead "AHEAD"
    ∷ declare_mask_map Tc.meta "META"
    ∷ declare_mask_map Tc.discard "DISCARD"
    ∷ declare_mask_map Tc.drv_data "DRV_DATA"
    ∷ declare_mask_map Tc.fua "FUA"
    ∷ []

-- COMPARE_MASK_MAP
unfoldable pub compare_mask_map : MaskMap → List ℕ → Bool
unfolding strcasecmp_eq
compare_mask_map m s = strcasecmp_eq m.short_form s || strcasecmp_eq m.long_form s

-- The loop of find_mask_map; `none` is its return value -1.
unfoldable pub find_mask_in : List MaskMap → List ℕ → Option ℕ
unfolding compare_mask_map
find_mask_in [] s = none
find_mask_in (m ∷ ms) s = if compare_mask_map m s then some m.mask else find_mask_in ms s

unfoldable pub find_mask_map : List ℕ → Option ℕ
unfolding find_mask_in
find_mask_map s = find_mask_in mask_maps s

unfoldable pub valid_act_opt : ℕ → Bool
valid_act_opt x = leb 1 x && ltb x (2 ^ Tc.shift)
