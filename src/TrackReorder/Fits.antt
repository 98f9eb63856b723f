-- ===== src/TrackReorder/Fits.antt =====
-- The place of a track whose new key lies between those of its neighbours.
use daw_project.Common.{
  ℕ, zero, suc, ◌≤◌, ◌≡◌, refl, true, false, Option, some, none, List, [], ◌∷◌, arith, length,
  get_elem?, Bool-cases, inl, inr,
}
use daw_project.Common.Find.{insert_at}
use daw_project.Common.Int.{pos, ◌+ℤ◌, ◌≤ℤ◌, ltb_ℤ, +ℤ_parts}
use daw_project.Num.{Num, eqb_num}
use daw_project.Schema.Order.{Keyed, comes_before, insert_keyed}
use daw_project.Schema.Order.Sorted.{Ascending}
use daw_project.TrackReorder.{middle}

-- Where the key lies between those of the neighbours.
abbrev pub Fits : Num → ℕ → List Keyed → Type 0
Fits v zero [] = Unit
Fits v zero (x ∷ xs) = ltb_ℤ v x.key ≡ true
Fits v (suc i) [] = ⊥
Fits v (suc i) (x ∷ xs) = (ltb_ℤ x.key v ≡ true) × Fits v i xs

pub insert_keyed-Fits :
    (k : Keyed) (i : ℕ) (xs : List Keyed) → Fits k.key i xs → insert_keyed k xs ≡ insert_at i k xs
unfolding insert_keyed insert_at comes_before eqb_num
insert_keyed-Fits k zero [] h = refl
insert_keyed-Fits k zero (x ∷ xs) h = ground arith
insert_keyed-Fits k (suc i) [] h = absurd h
insert_keyed-Fits k (suc i) (x ∷ xs) h = ground (arith, insert_keyed-Fits k i xs h.1)

-- The keys of the two neighbours of a place.
abbrev pub key_before : List Keyed → ℕ → Option Keyed
key_before xs zero = none
key_before xs (suc i) = get_elem? xs i

abbrev pub Above : Num → Option Keyed → Type 0
Above v none = Unit
Above v (some x) = ltb_ℤ x.key v ≡ true

abbrev pub Below : Num → Option Keyed → Type 0
Below v none = Unit
Below v (some x) = ltb_ℤ v x.key ≡ true

below_later :
    (v : Num) (x y : Keyed) → comes_before y x ≡ false → ltb_ℤ y.key v ≡ true → ltb_ℤ x.key v ≡ true
unfolding comes_before eqb_num
below_later v x y h k = ground arith

pub neighbours-Fits :
    (v : Num) (i : ℕ) (xs : List Keyed)
    → Ascending xs
    → i ≤ length xs
    → Above v (key_before xs i)
    → Below v (get_elem? xs i)
    → Fits v i xs
neighbours-Fits v zero [] s l a b = tt
neighbours-Fits v zero (x ∷ xs) s l a b = b
neighbours-Fits v (suc i) [] s l a b = omega arith
neighbours-Fits v (suc zero) (x ∷ []) s l a b = (a, tt)
neighbours-Fits v (suc (suc i)) (x ∷ []) s l a b = absurd (omega arith)
neighbours-Fits v (suc zero) (x ∷ y ∷ ys) s l a b = (a, b)
neighbours-Fits v (suc (suc i)) (x ∷ y ∷ ys) s l a b =
    let rest = neighbours-Fits v (suc i) (y ∷ ys) s.1 (omega arith) a b in
    (below_later v x y s.0 rest.0, rest)

-- Neighbours are two steps apart at least.
abbrev pub Spaced : List Keyed → Type 0
Spaced [] = Unit
Spaced (x ∷ []) = Unit
Spaced (x ∷ y ∷ ys) = (x.key +ℤ pos 2 ≤ℤ y.key) × Spaced (y ∷ ys)

pub Spaced-rest : (k : Keyed) (xs : List Keyed) → Spaced (insert_keyed k xs) → Spaced xs
unfolding insert_keyed
Spaced-rest k [] s = tt
Spaced-rest k (x ∷ []) s = tt
Spaced-rest k (x ∷ y ∷ ys) s = elim (Bool-cases (comes_before k x)) [
  | inl e ↦ (rw e at s).1
  | inr e ↦ elim (Bool-cases (comes_before k y)) [
    | inl f ↦
        let t = rw (e, f) at s in
        (omega (arith, +ℤ_parts x.key (pos 2), +ℤ_parts k.key (pos 2), t.0, t.1.0), t.1.1)
    | inr f ↦ let t = rw (e, f) at s in (t.0, Spaced-rest k (y ∷ ys) (rw f t.1))
  ]
]

pub Spaced-get_elem? :
    (xs : List Keyed) (i : ℕ) (x y : Keyed)
    → Spaced xs
    → get_elem? xs i ≡ some x
    → get_elem? xs (suc i) ≡ some y
    → x.key +ℤ pos 2 ≤ℤ y.key
Spaced-get_elem? [] i x y s p q = cc
Spaced-get_elem? (a ∷ []) i x y s p q = cc
Spaced-get_elem? (a ∷ b ∷ cs) zero x y s p q =
    let e : a ≡ x = cc in let f : b ≡ y = cc in rw (← e, ← f) s.0
Spaced-get_elem? (a ∷ b ∷ cs) (suc i) x y s p q = Spaced-get_elem? (b ∷ cs) i x y s.1 p q

pub middle_between :
    (a b : Num) → a +ℤ pos 2 ≤ℤ b → (ltb_ℤ a (middle a b) ≡ true) × (ltb_ℤ (middle a b) b ≡ true)
unfolding middle
middle_between a b h = (
  ground (arith, +ℤ_parts a b, +ℤ_parts a (pos 2)),
  ground (arith, +ℤ_parts a b, +ℤ_parts a (pos 2)),
)
