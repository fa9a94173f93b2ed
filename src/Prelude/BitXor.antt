-- ===== src/Prelude/BitXor.antt =====
-- `^` as arithmetic: it undoes itself, and bytes stay bytes.
use Prim.Native.Nat.{
  ℕ, zero, suc, ◌+◌, ◌*◌, ◌/◌, ◌%◌, ◌≤◌, ◌<◌, ◌^◌, bit_xor, differ, digits, bit_xor-bitwise,
}
use mathlib.Core.Path.{◌≡◌, refl, ap, ◌∙◌}
use native.Mathlib.Nat.{pow-suc}
use native.Mathlib.Omega.{arith}

-- The digits of an exclusive disjunction, with the count of digits as an argument of its own.
abbrev either : ℕ → ℕ → ℕ → ℕ
either n a b = digits (λ b. b) differ n a b

-- A larger count changes nothing.
either-more : (n m a b : ℕ) → a ≤ n → a ≤ m → either n a b ≡ either m a b
either-more zero zero a b p q = refl
either-more zero (suc m) zero b p q = refl
either-more zero (suc m) (suc a) b p q = absurd (omega arith)
either-more (suc n) zero zero b p q = refl
either-more (suc n) zero (suc a) b p q = absurd (omega arith)
either-more (suc n) (suc m) zero b p q = refl
either-more (suc n) (suc m) (suc a) b p q =
    ap (λ t. t * 2 + differ (suc a % 2) (b % 2))
      (either-more n m (suc a / 2) (b / 2) (omega arith) (omega arith))

pub bit_xor-digit : (a b : ℕ) → bit_xor a b ≡ bit_xor (a / 2) (b / 2) * 2 + differ (a % 2) (b % 2)
bit_xor-digit zero b = omega (arith, bit_xor-bitwise 0 b, bit_xor-bitwise 0 (b / 2))
bit_xor-digit (suc a) b = omega (
  arith,
  bit_xor-bitwise (suc a) b,
  bit_xor-bitwise (suc a / 2) (b / 2),
  either-more a (suc a / 2) (suc a / 2) (b / 2) (omega arith) (omega arith),
)

-- On digits.
differ-bound : (p q : ℕ) → p < 2 → q < 2 → differ p q < 2
differ-bound zero q h k = k
differ-bound (suc zero) zero h k = h
differ-bound (suc zero) (suc zero) h k = omega arith
differ-bound (suc zero) (suc (suc q)) h k = absurd (omega arith)
differ-bound (suc (suc p)) q h k = absurd (omega arith)

differ-twice : (p q : ℕ) → p < 2 → q < 2 → differ (differ p q) q ≡ p
differ-twice zero zero h k = refl
differ-twice zero (suc zero) h k = refl
differ-twice zero (suc (suc q)) h k = absurd (omega arith)
differ-twice (suc zero) zero h k = refl
differ-twice (suc zero) (suc zero) h k = refl
differ-twice (suc zero) (suc (suc q)) h k = absurd (omega arith)
differ-twice (suc (suc p)) q h k = absurd (omega arith)

bit_xor-zero_below : (n a : ℕ) → a ≤ n → bit_xor a 0 ≡ a
bit_xor-zero_below zero zero h = refl
bit_xor-zero_below zero (suc a) h = absurd (omega arith)
bit_xor-zero_below (suc n) zero h = refl
bit_xor-zero_below (suc n) (suc a) h =
    bit_xor-digit (suc a) 0
    ∙ ap (λ t. t * 2 + differ (suc a % 2) 0) (bit_xor-zero_below n (suc a / 2) (omega arith))
    ∙ last (suc a)
  where
    last : (x : ℕ) → x / 2 * 2 + differ (x % 2) 0 ≡ x
    last x = omega (arith, right (x % 2))
      where
        right : (d : ℕ) → differ d 0 ≡ d
        right zero = refl
        right (suc d) = refl

bit_xor-zero : (a : ℕ) → bit_xor a 0 ≡ a
bit_xor-zero a = bit_xor-zero_below a a (omega arith)

twice_below : (n a b : ℕ) → b ≤ n → bit_xor (bit_xor a b) b ≡ a
twice_below n a zero h = bit_xor-zero (bit_xor a 0) ∙ bit_xor-zero a
twice_below zero a (suc b) h = absurd (omega arith)
twice_below (suc n) a (suc b) h =
    let low : differ (a % 2) (suc b % 2) < 2 =
      differ-bound (a % 2) (suc b % 2) (omega arith) (omega arith) in
    let halves : bit_xor a (suc b) / 2 ≡ bit_xor (a / 2) (suc b / 2) =
      omega (arith, bit_xor-digit a (suc b), low) in
    let digit : bit_xor a (suc b) % 2 ≡ differ (a % 2) (suc b % 2) =
      omega (arith, bit_xor-digit a (suc b), low) in
    bit_xor-digit (bit_xor a (suc b)) (suc b)
    ∙ ap (λ t. bit_xor t (suc b / 2) * 2 + differ (bit_xor a (suc b) % 2) (suc b % 2)) halves
    ∙ ap (λ t. t * 2 + differ (bit_xor a (suc b) % 2) (suc b % 2))
        (twice_below n (a / 2) (suc b / 2) (omega arith))
    ∙ ap (λ t. a / 2 * 2 + differ t (suc b % 2)) digit
    ∙ omega (arith, differ-twice (a % 2) (suc b % 2) (omega arith) (omega arith))

pub bit_xor-twice : (a b : ℕ) → bit_xor (bit_xor a b) b ≡ a
bit_xor-twice a b = twice_below b a b (omega arith)

pub bit_xor-bound : (k a b : ℕ) → a < 2 ^ k → b < 2 ^ k → bit_xor a b < 2 ^ k
bit_xor-bound zero zero zero h g = omega arith
bit_xor-bound zero (suc a) b h g = absurd (omega arith)
bit_xor-bound zero zero (suc b) h g = absurd (omega arith)
bit_xor-bound (suc k) a b h g = omega (
  arith,
  bit_xor-digit a b,
  differ-bound (a % 2) (b % 2) (omega arith) (omega arith),
  bit_xor-bound k (a / 2) (b / 2) (omega (arith, pow-suc 2 k)) (omega (arith, pow-suc 2 k)),
  pow-suc 2 k,
)
