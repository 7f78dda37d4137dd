-- ===== src/Common/Bits.antt =====
-- The bits that a word shares with a mask. `has_bits` asks for `bit_and`, which computes at literals
-- only; here it is told for variables, by recursion on the width of the word.
use Prim.Native.Nat.{
  ℕ, zero, suc, ◌+◌, ◌*◌, ◌/◌, ◌%◌, ◌^◌, ◌≤◌, ◌<◌, min, bit_and, digits, bit_and-bitwise,
}
use mathlib.Core.Path.{◌≡◌, refl, ◌∙◌, subst}
use mathlib.Core.Bool.{Bool, false, not, ◌&&◌, ◌||◌}
use native.Mathlib.Nat.{pow-suc}
use native.Mathlib.Omega.{arith}
use blktrace.Common.Tests.{◌==◌}
use blktrace.Common.Words.{has_bits}

-- Is one of the n lowest bits set in both words?
unfoldable pub shares_bit : ℕ → ℕ → ℕ → Bool
shares_bit zero a m = false
shares_bit (suc n) a m = ((a % 2 == 1) && (m % 2 == 1)) || shares_bit n (a / 2) (m / 2)

-- The bit of a number
unfoldable pub has_bit : ℕ → ℕ → Bool
has_bit zero a = a % 2 == 1
has_bit (suc n) a = has_bit n (a / 2)

-- The word of the bits that are set in both, of the w lowest
shared : ℕ → ℕ → ℕ → ℕ
shared zero a m = 0
shared (suc w) a m = shared w (a / 2) (m / 2) * 2 + min (a % 2) (m % 2)

shared_zero : (w m : ℕ) → shared w 0 m ≡ 0
unfolding shared
shared_zero zero m = refl
shared_zero (suc w) m = omega (arith, shared_zero w (m / 2))

digits-shared :
    (w count a m : ℕ) → a ≤ count → a < 2 ^ w → digits (λ _. 0) min count a m ≡ shared w a m
unfolding shared
digits-shared w zero zero m few fits = omega (arith, shared_zero w m)
digits-shared w (suc count) zero m few fits = omega (arith, shared_zero w m)
digits-shared w zero (suc a) m few fits = absurd (omega arith)
digits-shared zero (suc count) (suc a) m few fits = absurd (omega arith)
digits-shared (suc w) (suc count) (suc a) m few fits =
    let half = digits-shared w count (suc a / 2) (m / 2) (omega arith) (omega arith) in
    omega (arith, half)

bit_and-shared : (w a m : ℕ) → a < 2 ^ w → bit_and a m ≡ shared w a m
bit_and-shared w a m fits = bit_and-bitwise a m ∙ digits-shared w a a m (omega arith) fits

shared-shares_bit : (w a m : ℕ) → (shared w a m == 0) ≡ not (shares_bit w a m)
unfolding shared shares_bit
shared-shares_bit zero a m = refl
shared-shares_bit (suc w) a m = ground (arith, shared-shares_bit w (a / 2) (m / 2))

-- A mask that is moved up by a bit meets the word moved down.
shared-up : (w a m k : ℕ) → k ≡ m * 2 → shared (suc w) a k ≡ shared w (a / 2) m * 2
unfolding shared
shared-up w a m k e = let back : k / 2 ≡ m = omega (arith, e) in rw (back) (omega (arith, e))

-- A word is below its own power of two.
width : (a : ℕ) → a < 2 ^ a
width zero = omega arith
width (suc a) = omega (arith, width a, pow-suc 2 a)

shared_nothing : (w a : ℕ) → shared w a 0 ≡ 0
unfolding shared
shared_nothing zero a = refl
shared_nothing (suc w) a = omega (arith, shared_nothing w (a / 2))

shared-has_bit : (n w a : ℕ) → n < w → (shared w a (2 ^ n) == 0) ≡ not (has_bit n a)
unfolding shared has_bit
shared-has_bit zero (suc w) a h = ground (arith, shared_nothing w (a / 2))
shared-has_bit (suc n) (suc w) a h = ground (
  arith,
  shared-up w a (2 ^ n) (2 ^ suc n) (pow-suc 2 n),
  shared-has_bit n w (a / 2) (omega arith),
)
shared-has_bit n zero a h = absurd (omega arith)

wide_enough : (n a : ℕ) → (w : ℕ) × (n < w) × (a < 2 ^ w)
wide_enough zero a = (suc a, omega arith, omega (arith, width a, pow-suc 2 a))
wide_enough (suc n) a =
    let (w, more, fits) = wide_enough n a in
    (suc w, omega (arith, more), omega (arith, fits, pow-suc 2 w))

pub has_bits-has_bit : (n a : ℕ) → has_bits a (2 ^ n) ≡ has_bit n a
has_bits-has_bit n a =
    let (w, more, fits) = wide_enough n a in
    ground (arith, bit_and-shared w a (2 ^ n) fits, shared-has_bit n w a more)

-- Four places at once, and all the 16 by which a mask of categories is moved up
shared-up_4 :
    (w a b m k : ℕ)
    → b ≡ a / 2 ^ 4
    → k ≡ m * 2 ^ 4
    → shared (suc (suc (suc (suc w)))) a k ≡ shared w b m * 2 ^ 4
shared-up_4 w a b m k e f =
    let last : a / 2 / 2 / 2 / 2 ≡ b = omega (arith, e) in
    let up = shared-up w (a / 2 / 2 / 2) m (m * 2) refl in
    omega (
      arith,
      shared-up (suc (suc (suc w))) a (m * 8) k (omega (arith, f)),
      shared-up (suc (suc w)) (a / 2) (m * 4) (m * 8) (omega arith),
      shared-up (suc w) (a / 2 / 2) (m * 2) (m * 4) (omega arith),
      subst (λ x. shared (suc w) (a / 2 / 2 / 2) (m * 2) ≡ shared w x m * 2) last up,
    )

pub has_bits-shift : (a m : ℕ) → a < 2 ^ 32 → has_bits a (m * 2 ^ 16) ≡ shares_bit 16 (a / 2 ^ 16) m
has_bits-shift a m h = ground (
  arith,
  bit_and-shared 32 a (m * 2 ^ 16) h,
  shared-up_4 28 a (a / 2 ^ 4) (m * 2 ^ 12) (m * 2 ^ 16) refl (omega arith),
  shared-up_4 24 (a / 2 ^ 4) (a / 2 ^ 8) (m * 2 ^ 8) (m * 2 ^ 12) (omega arith) (omega arith),
  shared-up_4 20 (a / 2 ^ 8) (a / 2 ^ 12) (m * 2 ^ 4) (m * 2 ^ 8) (omega arith) (omega arith),
  shared-up_4 16 (a / 2 ^ 12) (a / 2 ^ 16) m (m * 2 ^ 4) (omega arith) refl,
  shared-shares_bit 16 (a / 2 ^ 16) m,
)
