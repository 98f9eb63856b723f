-- ===== src/Tempo/Rounding.antt =====
-- `roundDiv`: rounding to the nearest whole number, halves up.
use native.Mathlib.Nat.{mul-div-le, lt-mul-div-succ, le-div_iff_mul-le, div-eq_of_lt-le}
use daw_project.Common.{ℕ, ◌+◌, ◌*◌, ◌/◌, ◌≤◌, ◌<◌, ◌≡◌, some, arith}
use daw_project.Tempo.{round_div}

-- The value of `roundDiv` where it does not throw.
unfoldable pub half_up : ℕ → ℕ → ℕ
half_up n d = (2 * n + d) / (2 * d)

pub round_div-some : (n d : ℕ) → 0 < d → round_div n d ≡ some (half_up n d)
unfolding round_div half_up
round_div-some n d h = ground arith

module _ (n d : ℕ) (h : 0 < d) where
  pub half_up_lower : 2 * (d * half_up n d) ≤ 2 * n + d
  unfolding half_up
  half_up_lower = omega (arith, mul-div-le (2 * n + d) (2 * d))

  pub half_up_upper : 2 * n + d < 2 * (d * half_up n d) + 2 * d
  unfolding half_up
  half_up_upper = omega (arith, lt-mul-div-succ (2 * n + d) {b = 2 * d} (omega arith))

pub half_up_mono : (m n d : ℕ) → 0 < d → m ≤ n → half_up m d ≤ half_up n d
unfolding half_up
half_up_mono m n d h k =
    (le-div_iff_mul-le {k = 2 * d} (omega arith)).1 (omega (arith, mul-div-le (2 * m + d) (2 * d)))

-- A whole divisor more is one more, at least.
pub half_up-lt : (m n d : ℕ) → 0 < d → m + d ≤ n → half_up m d < half_up n d
unfolding half_up
half_up-lt m n d h k =
    (le-div_iff_mul-le {k = 2 * d} (omega arith)).1 (omega (arith, mul-div-le (2 * m + d) (2 * d)))

-- Rounding on a grid finer than the other loses nothing.
pub half_up_inverse : (k a b : ℕ) → 0 < b → b < a → half_up (half_up (k * a) b * b) a ≡ k
unfolding half_up
half_up_inverse k a b h l =
    div-eq_of_lt-le _ (omega (arith, half_up_upper (k * a) b h))
      (omega (arith, half_up_lower (k * a) b h))
