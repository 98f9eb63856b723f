-- ===== src/Num.antt =====
-- JavaScript numbers of the document layer (web/src/document): a finite number is an integer count
-- of 2^-20, so that `Math.min`, `Math.max`, `Math.round` and the comparisons are exact.
use daw_project.Common.{
  ℕ, ◌==◌, ◌&&◌, true, ◌↔◌, suc, ◌-◌, ◌+◌, ◌*◌, ◌/◌, ◌≤◌, ◌≡◌, Bool, arith, if◌then◌else◌,
}
use daw_project.Common.Int.{negsuc, ℤ, pos, pos_part, neg_part, ltb_ℤ, ◌≤ℤ◌, ◌-ℤ◌}

abbrev pub Num : Type 0
Num = ℤ

-- How many steps make 1, and half of that.
abbrev pub unit : ℕ
unit = 1048576

abbrev pub half : ℕ
half = 524288

-- The whole number n.
abbrev pub num : ℕ → Num
num n = pos (n * unit)

-- Math.min(a, b) and Math.max(a, b).
unfoldable pub min_num : Num → Num → Num
min_num a b = if ltb_ℤ b a then b else a

unfoldable pub max_num : Num → Num → Num
max_num a b = if ltb_ℤ a b then b else a

-- Math.max(lo, Math.min(hi, x))
unfoldable pub clamp : Num → Num → Num → Num
unfolding min_num max_num
clamp lo hi x = max_num lo (min_num hi x)

-- Math.max(0, Math.round(x)), a whole number: halves are rounded up.
unfoldable pub round_pos : Num → ℕ
round_pos x = (pos_part x + half) / unit

-- Math.round(x): halves are rounded up, towards the greater number.
unfoldable pub round_num : Num → Num
round_num (pos n) = num ((n + half) / unit)
round_num (negsuc n) = pos 0 -ℤ num ((suc n - half + (unit - 1)) / unit)

pub clamp_bounds : (lo hi x : Num) → lo ≤ℤ hi → (lo ≤ℤ clamp lo hi x) × (clamp lo hi x ≤ℤ hi)
unfolding clamp
clamp_bounds lo hi x h = ground arith

pub clamp-id : (lo hi x : Num) → lo ≤ℤ x → x ≤ℤ hi → clamp lo hi x ≡ x
unfolding clamp
clamp-id lo hi x h k = ground arith

pub round_pos-num : (n : ℕ) → round_pos (num n) ≡ n
unfolding round_pos
round_pos-num n = omega arith

pub round_pos_mono : (x y : Num) → x ≤ℤ y → round_pos x ≤ round_pos y
unfolding round_pos
round_pos_mono x y h = ground arith

-- a === b
unfoldable pub eqb_num : Num → Num → Bool
eqb_num a b = pos_part a == pos_part b && neg_part a == neg_part b

pub eqb_num_iff : (a b : Num) → (eqb_num a b ≡ true) ↔ (a ≡ b)
unfolding eqb_num
eqb_num_iff a b = ground arith

pub eqb_num_comm : (a b : Num) → eqb_num a b ≡ eqb_num b a
unfolding eqb_num
eqb_num_comm a b = ground arith
