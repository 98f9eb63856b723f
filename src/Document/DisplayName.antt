-- ===== src/Document/DisplayName.antt =====
-- `name.trim().slice(0, 64)`, through which every rename of web/src/document/project.ts goes.
use mathlib.Core.List.{reverse}
use daw_project.Common.{
  ℕ, ◌≤◌, ◌≡◌, ◌↔◌, refl, arith, Bool, true, false, ◌||◌, ◌&&◌, [], ◌∷◌, leb, ◌==◌, take, length,
  length-take, if◌then◌else◌,
}
use daw_project.Schema.{Name}

abbrev pub max_name : ℕ
max_name = 64

-- White space and line ends, as `trim` has them.
is_space : ℕ → Bool
is_space c =
    leb 9 c && leb c 13
    || c == 32
    || c == 160
    || c == 0x1680
    || leb 0x2000 c && leb c 0x200a
    || c == 0x2028
    || c == 0x2029
    || c == 0x202f
    || c == 0x205f
    || c == 0x3000
    || c == 0xfeff

trim_start : Name → Name
unfolding is_space
trim_start [] = []
trim_start (c ∷ cs) = if is_space c then trim_start cs else c ∷ cs

unfoldable pub trim : Name → Name
unfolding trim_start
trim s = reverse (trim_start (reverse (trim_start s)))

unfoldable pub display_name : Name → Name
unfolding trim
display_name s = take max_name (trim s)

-- Equality of texts, unit by unit.
unfoldable pub eqb_name : Name → Name → Bool
eqb_name [] [] = true
eqb_name (a ∷ as') (b ∷ bs) = a == b && eqb_name as' bs
eqb_name _ _ = false

pub length-display_name : (s : Name) → length (display_name s) ≤ max_name
unfolding display_name
length-display_name s = omega (arith, length-take max_name (trim s))

display_name_runs : display_name (32 ∷ 65 ∷ 32 ∷ 66 ∷ 9 ∷ []) ≡ 65 ∷ 32 ∷ 66 ∷ []
unfolding display_name
display_name_runs = refl

pub eqb_name_iff : (a b : Name) → (eqb_name a b ≡ true) ↔ (a ≡ b)
unfolding eqb_name
eqb_name_iff [] [] = (λ e. refl, λ e. refl)
eqb_name_iff [] (b ∷ bs) = (λ e. cc, λ e. cc)
eqb_name_iff (a ∷ as') [] = (λ e. cc, λ e. cc)
eqb_name_iff (a ∷ as') (b ∷ bs) = ground (arith, eqb_name_iff as' bs)

pub eqb_name_comm : (a b : Name) → eqb_name a b ≡ eqb_name b a
unfolding eqb_name
eqb_name_comm [] [] = refl
eqb_name_comm [] (b ∷ bs) = refl
eqb_name_comm (a ∷ as') [] = refl
eqb_name_comm (a ∷ as') (b ∷ bs) = ground (arith, eqb_name_comm as' bs)
