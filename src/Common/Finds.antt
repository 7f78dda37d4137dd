-- ===== src/Common/Finds.antt =====
-- The first entry of a list that passes a test.
use mathlib.Core.Path.{◌≡◌, refl, ap}
use mathlib.Core.Bool.{Bool, false}
use mathlib.Core.Option.{Option, none, some}
use mathlib.Core.List.{List, [], ◌∷◌, ◌++◌}
use blktrace.Common.Tests.{if◌then◌else◌}
use blktrace.Common.Perms.{All}

abbrev pub find {ℓ} : {A : Type ℓ} → (A → Bool) → List A → Option A
find p [] = none
find p (x ∷ l) = if p x then some x else find p l

module _ {ℓ} {A : Type ℓ} where
  pub All-weaken : (P Q : A → Type 0) (l : List A) → ((y : A) → P y → Q y) → All P l → All Q l
  All-weaken P Q [] f h = tt
  All-weaken P Q (x ∷ l) f h = (f x h.0, All-weaken P Q l f h.1)

  pub find-none :
      (p : A → Bool) (l r : List A) → All (λ y. p y ≡ false) l → find p (l ++ r) ≡ find p r
  find-none p [] r h = refl
  find-none p (x ∷ l) r h = rw (h.0) (find-none p l r h.1)

  pub find-left : (p : A → Bool) (l r : List A) → find p r ≡ none → find p (l ++ r) ≡ find p l
  find-left p [] r h = h
  find-left p (x ∷ l) r h = ap (λ k. if p x then some x else k) (find-left p l r h)

  pub find-nothing : (p : A → Bool) (l : List A) → All (λ y. p y ≡ false) l → find p l ≡ none
  find-nothing p [] h = refl
  find-nothing p (x ∷ l) h = rw (h.0) (find-nothing p l h.1)
