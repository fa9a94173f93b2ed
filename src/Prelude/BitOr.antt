-- ===== src/Prelude/BitOr.antt =====
-- `|` as arithmetic: bits that are set in a number whose low digits are zero.
use Prim.Native.Nat.{
  ℕ, zero, suc, ◌+◌, ◌*◌, ◌/◌, ◌%◌, ◌^◌, ◌<◌, ◌≤◌, max, bit_or, digits, bit_or-bitwise,
}
use mathlib.Core.Path.{◌≡◌, refl, ap, ◌∙◌}
use native.Mathlib.Nat.{pow-suc}
use native.Mathlib.Omega.{arith}

-- The digits of a disjunction, with the count of digits as an argument of its own.
abbrev disj : ℕ → ℕ → ℕ → ℕ
disj n a b = digits (λ b. b) max n a b

-- A larger count changes nothing.
disj-more : (n m a b : ℕ) → a ≤ n → a ≤ m → disj n a b ≡ disj m a b
disj-more zero zero a b p q = refl
disj-more zero (suc m) zero b p q = refl
disj-more zero (suc m) (suc a) b p q = absurd (omega arith)
disj-more (suc n) zero zero b p q = refl
disj-more (suc n) zero (suc a) b p q = absurd (omega arith)
disj-more (suc n) (suc m) zero b p q = refl
disj-more (suc n) (suc m) (suc a) b p q =
    ap (λ t. t * 2 + max (suc a % 2) (b % 2))
      (disj-more n m (suc a / 2) (b / 2) (omega arith) (omega arith))

pub bit_or-digit : (a b : ℕ) → bit_or a b ≡ bit_or (a / 2) (b / 2) * 2 + max (a % 2) (b % 2)
bit_or-digit zero b = omega (arith, bit_or-bitwise 0 b, bit_or-bitwise 0 (b / 2))
bit_or-digit (suc a) b = omega (
  arith,
  bit_or-bitwise (suc a) b,
  bit_or-bitwise (suc a / 2) (b / 2),
  disj-more a (suc a / 2) (suc a / 2) (b / 2) (omega arith) (omega arith),
)

pub bit_or-zero_below : (n a : ℕ) → a ≤ n → bit_or a 0 ≡ a
bit_or-zero_below zero zero h = refl
bit_or-zero_below zero (suc a) h = absurd (omega arith)
bit_or-zero_below (suc n) zero h = refl
bit_or-zero_below (suc n) (suc a) h =
    omega (arith, bit_or-digit (suc a) 0, bit_or-zero_below n (suc a / 2) (omega arith))

pub bit_or-zero : (a : ℕ) → bit_or a 0 ≡ a
bit_or-zero a = bit_or-zero_below a a (omega arith)

pub bit_or-one : (a : ℕ) → a % 2 ≡ 0 → bit_or a 1 ≡ a + 1
bit_or-one a h = omega (arith, bit_or-digit a 1, bit_or-zero (a / 2))

pub bit_or-two : (a : ℕ) → a / 2 % 2 ≡ 0 → bit_or a 2 ≡ a + 2
bit_or-two a h = omega (arith, bit_or-digit a 2, bit_or-one (a / 2) h)

-- A number on top of k low digits.
pub bit_or-above : (k a b : ℕ) → a < 2 ^ k → bit_or a (b * 2 ^ k) ≡ a + b * 2 ^ k
bit_or-above zero zero b h = bit_or-bitwise 0 (b * 2 ^ 0) ∙ omega arith
bit_or-above zero (suc a) b h = absurd (omega arith)
bit_or-above (suc k) a b h = ground (
  arith,
  bit_or-digit a (b * 2 ^ suc k),
  bit_or-above k (a / 2) b (omega (arith, pow-suc 2 k)),
  shifted b k,
)
  where
    shifted : (b k : ℕ) → b * 2 ^ suc k ≡ b * 2 ^ k * 2
    shifted b k = omega (arith, ap (λ (t : ℕ). b * t) (pow-suc 2 k))
