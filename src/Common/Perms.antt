-- ===== src/Common/Perms.antt =====
-- Permutations and the native length; what holds of every entry holds of every entry of a
-- permutation.
use Prim.Native.Nat.{suc}
use mathlib.Core.Path.{◌≡◌, refl, ◌∙◌, ap, subst}
use mathlib.Core.HLevel.{×_prop}
use mathlib.Core.Logic.{∥∥₁_elim}
use mathlib.Core.List.{List, [], ◌∷◌, ◌++◌, Perm, Permᴰ}
use native.Mathlib.Nat.{ℕ_set}
use blktrace.Common.Lists.{length}

module _ {ℓ} {A : Type ℓ} where
  length-Permᴰ : {xs ys : List A} → Permᴰ xs ys → length xs ≡ length ys
  length-Permᴰ Permᴰ.nil = refl
  length-Permᴰ (Permᴰ.cons e p) = ap suc (length-Permᴰ p)
  length-Permᴰ (Permᴰ.swap e f) = refl
  length-Permᴰ (Permᴰ.trans p q) = length-Permᴰ p ∙ length-Permᴰ q

  pub length-Perm : {xs ys : List A} → Perm xs ys → length xs ≡ length ys
  length-Perm {xs} {ys} p = ∥∥₁_elim p (ℕ_set (length xs) (length ys)) length-Permᴰ

  -- P holds of every entry.
  abbrev pub All {κ} : (A → Type κ) → List A → Type κ
  All P [] = Unit
  All P (x ∷ xs) = P x × All P xs

  pub All-Permᴰ {κ} : (P : A → Type κ) {xs ys : List A} → Permᴰ xs ys → All P xs → All P ys
  All-Permᴰ P Permᴰ.nil a = a
  All-Permᴰ P (Permᴰ.cons e p) a = (subst P e a.0, All-Permᴰ P p a.1)
  All-Permᴰ P (Permᴰ.swap e f) a = (subst P f a.1.0, (subst P e a.0, a.1.1))
  All-Permᴰ P (Permᴰ.trans p q) a = All-Permᴰ P q (All-Permᴰ P p a)

  All-prop {κ} : (P : A → Type κ) → ((a : A) → IsProp (P a)) → (xs : List A) → IsProp (All P xs)
  All-prop P p [] = hlevel
  All-prop P p (x ∷ xs) = ×_prop (p x) (All-prop P p xs)

  pub All-Perm {κ} :
      (P : A → Type κ)
      → ((a : A) → IsProp (P a))
      → {xs ys : List A} → Perm xs ys
      → All P xs
      → All P ys
  All-Perm P p {xs} {ys} q a = ∥∥₁_elim q (All-prop P p ys) (λ d. All-Permᴰ P d a)

module _ {ℓ κ} {A : Type ℓ} (P : A → Type κ) where
  pub All-left : (l r : List A) → All P (l ++ r) → All P l
  All-left [] r h = tt
  All-left (x ∷ l) r h = (h.0, All-left l r h.1)

  pub All-right : (l r : List A) → All P (l ++ r) → All P r
  All-right [] r h = h
  All-right (x ∷ l) r h = All-right l r h.1

  pub All-both : (l r : List A) → All P l → All P r → All P (l ++ r)
  All-both [] r h k = k
  All-both (x ∷ l) r h k = (h.0, All-both l r h.1 k)
