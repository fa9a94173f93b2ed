-- ===== src/Prelude/Steps.antt =====
-- Multiples of a step between two bounds.
use Prim.Native.Nat.{ℕ, zero, suc, ◌+◌, ◌-◌, ◌*◌, ◌/◌, ◌%◌, ◌≤◌, ◌<◌}
use mathlib.Core.Path.{◌≡◌, ap, ◌∙◌}
use native.Mathlib.Omega.{arith}
use native.Mathlib.Decide.{dec_le}
use native.Mathlib.Nat.{
  mod-add-div', zero-mod, mul-add-div_right, div-eq_of_lt, add-mul-mod_self_right,
}

-- Two multiples lie a number of steps apart.
pub steps_between :
    (lo hi step : ℕ) → lo % step ≡ 0 → hi % step ≡ 0 → lo ≤ hi → (n : ℕ) × (hi ≡ lo + n * step)
steps_between lo hi step h k l = elim (dec_le (lo / step) (hi / step)) [
  | yes up ↦
      let n : ℕ = hi / step - lo / step in
      let whole : hi / step ≡ lo / step + n = omega arith in
      (n, omega (arith, mod-add-div' lo step, mod-add-div' hi step, ap (λ t. t * step) whole))
  | no down ↦
      let n : ℕ = lo / step - hi / step in
      let whole : lo / step ≡ hi / step + n = omega arith in
      (0, omega (arith, mod-add-div' lo step, mod-add-div' hi step, ap (λ t. t * step) whole))
]

pub step_aligned : (lo n step : ℕ) → lo % step ≡ 0 → (lo + n * step) % step ≡ 0
step_aligned lo n step h = add-mul-mod_self_right lo n step ∙ h

pub down_aligned : (a step : ℕ) → (a - a % step) % step ≡ 0
down_aligned a step =
    ap (λ t. t % step) whole ∙ add-mul-mod_self_right 0 (a / step) step ∙ zero-mod step
  where
    whole : a - a % step ≡ 0 + a / step * step
    whole = omega (arith, mod-add-div' a step)

-- Between a multiple and the next there is none.
pub none_between : (lo x step : ℕ) → lo % step ≡ 0 → x % step ≡ 0 → lo < x → lo + step ≤ x
none_between lo x step h k l =
    let (n, e) = steps_between lo x step h k (omega arith) in at_least n e
  where
    at_least : (n : ℕ) → x ≡ lo + n * step → lo + step ≤ x
    at_least zero e = absurd (omega arith)
    at_least (suc n) e = omega arith

-- The number of values of a range whose bounds are multiples.
pub steps_count : (lo n step : ℕ) → 0 < step → (lo + n * step - lo + (step - 1)) / step ≡ n
steps_count lo n step pos =
    ap (λ t. t / step) whole ∙ mul-add-div_right pos n (step - 1) ∙ omega (arith, div-eq_of_lt last)
  where
    whole : lo + n * step - lo + (step - 1) ≡ n * step + (step - 1)
    whole = omega arith

    last : step - 1 < step
    last = omega arith
