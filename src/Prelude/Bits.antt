-- ===== src/Prelude/Bits.antt =====
-- Masks as arithmetic: `&` with a window of ones, at every position and width.
use Prim.Native.Nat.{
  ℕ, zero, suc, ◌+◌, ◌-◌, ◌*◌, ◌/◌, ◌%◌, ◌^◌, ◌<◌, ◌≤◌, min, bit_and, digits, bit_and-bitwise,
}
use mathlib.Core.Path.{◌≡◌, refl, ap}
use native.Mathlib.Nat.{
  pow-suc, one-le-pow, mod-eq-sub-mul-div, div-div-eq-div-mul, div-add-mod, mul_comm, mod-eq_of_lt,
  div-lt_iff_lt-mul,
}
use native.Mathlib.Omega.{arith}

-- The digits of a conjunction, with the count of digits as an argument of its own.
abbrev conj : ℕ → ℕ → ℕ → ℕ
conj n a b = digits (λ _. zero) min n a b

-- A larger count changes nothing.
conj-more : (n m a b : ℕ) → a ≤ n → a ≤ m → conj n a b ≡ conj m a b
conj-more zero zero a b p q = refl
conj-more zero (suc m) zero b p q = refl
conj-more zero (suc m) (suc a) b p q = absurd (omega arith)
conj-more (suc n) zero zero b p q = refl
conj-more (suc n) zero (suc a) b p q = absurd (omega arith)
conj-more (suc n) (suc m) zero b p q = refl
conj-more (suc n) (suc m) (suc a) b p q =
    ap (λ t. t * 2 + min (suc a % 2) (b % 2))
      (conj-more n m (suc a / 2) (b / 2) (omega arith) (omega arith))

pub bit_and-digit : (a b : ℕ) → bit_and a b ≡ bit_and (a / 2) (b / 2) * 2 + min (a % 2) (b % 2)
bit_and-digit zero b = omega (arith, bit_and-bitwise 0 b, bit_and-bitwise 0 (b / 2))
bit_and-digit (suc a) b = omega (
  arith,
  bit_and-bitwise (suc a) b,
  bit_and-bitwise (suc a / 2) (b / 2),
  conj-more a (suc a / 2) (suc a / 2) (b / 2) (omega arith) (omega arith),
)

bit_and-zero_below : (n a : ℕ) → a ≤ n → bit_and a 0 ≡ 0
bit_and-zero_below zero zero h = refl
bit_and-zero_below zero (suc a) h = absurd (omega arith)
bit_and-zero_below (suc n) zero h = refl
bit_and-zero_below (suc n) (suc a) h =
    omega (arith, bit_and-digit (suc a) 0, bit_and-zero_below n (suc a / 2) (omega arith))

pub bit_and-zero : (a : ℕ) → bit_and a 0 ≡ 0
bit_and-zero a = bit_and-zero_below a a (omega arith)

scaled : (q k : ℕ) → q * 2 ^ suc k ≡ 2 * (q * 2 ^ k)
scaled q k = omega (arith, ap (λ (t : ℕ). q * t) (pow-suc 2 k))

-- A mask that is a multiple of 2 ^ k acts on what stands above the k lowest digits.
pub bit_and-shifted :
    (k q r m : ℕ) → r < 2 ^ k → bit_and (q * 2 ^ k + r) (m * 2 ^ k) ≡ bit_and q m * 2 ^ k
bit_and-shifted zero q r m h = rw (whole, times_one) (omega arith)
  where
    whole : q * 2 ^ 0 + r ≡ q
    whole = omega arith

    times_one : m * 2 ^ 0 ≡ m
    times_one = omega arith
bit_and-shifted (suc k) q r m h = ground (
  arith,
  bit_and-digit (q * 2 ^ suc k + r) (m * 2 ^ suc k),
  scaled q k,
  scaled m k,
  scaled (bit_and q m) k,
  pow-suc 2 k,
  bit_and-shifted k q (r / 2) m (omega (arith, pow-suc 2 k)),
)

-- The remainder by twice a number, from that of the half.
mod-twice : (a p : ℕ) → a % (2 * p) ≡ (a / 2) % p * 2 + a % 2
mod-twice a p = omega (
  arith,
  mod-eq-sub-mul-div a (2 * p),
  div-div-eq-div-mul a 2 p,
  ap (λ (t : ℕ). p * t) (div-div-eq-div-mul a 2 p),
  div-add-mod (a / 2) p,
)

-- A mask of k ones is the remainder by 2 ^ k.
pub bit_and-ones : (k a : ℕ) → bit_and a (2 ^ k - 1) ≡ a % 2 ^ k
bit_and-ones zero a = omega (arith, bit_and-zero a)
bit_and-ones (suc k) a = rw pow-suc (
    omega (
      arith,
      bit_and-digit a (2 ^ k * 2 - 1),
      one-le-pow k 2,
      ap (λ (t : ℕ). bit_and (a / 2) t) lower,
      bit_and-ones k (a / 2),
      mod-twice a (2 ^ k),
      ap (λ (t : ℕ). a % t) (mul_comm 2 (2 ^ k)),
    ))
  where
    lower : (2 ^ k * 2 - 1) / 2 ≡ 2 ^ k - 1
    lower = omega (arith, one-le-pow k 2)

-- A window of w ones from digit k on.
pub bit_and-window : (k w a : ℕ) → bit_and a ((2 ^ w - 1) * 2 ^ k) ≡ (a / 2 ^ k) % 2 ^ w * 2 ^ k
bit_and-window k w a = ground (
  arith,
  bit_and-shifted k (a / 2 ^ k) (a % 2 ^ k) (2 ^ w - 1),
  bit_and-ones w (a / 2 ^ k),
  one-le-pow k 2,
)

-- A number that fits keeps all of its digits but the k lowest: `x & -align` for the alignment 2 ^ k.
pub bit_and-align_down :
    (k w a : ℕ) → a < 2 ^ w * 2 ^ k → bit_and a ((2 ^ w - 1) * 2 ^ k) ≡ a - a % 2 ^ k
bit_and-align_down k w a h = rw bit_and-window (
    omega (
      arith,
      ap (λ (t : ℕ). t * 2 ^ k) (mod-eq_of_lt fits),
      mod-eq-sub-mul-div a (2 ^ k),
      div-add-mod a (2 ^ k),
    ))
  where
    fits : a / 2 ^ k < 2 ^ w
    fits = (div-lt_iff_lt-mul (one-le-pow k 2 (omega arith))).1 h
