-- ===== src/Schema/Order/Sorted.antt =====
-- The insertion sort of `orderedTracks` sorts by `comes_before`.
use daw_project.Common.{◌≡◌, arith, true, false, List, [], ◌∷◌, Bool-cases, inl, inr}
use daw_project.Num.{eqb_num}
use daw_project.Schema.Order.{Keyed, comes_before, insert_keyed, sort_keyed}

-- No element comes before the one that precedes it.
abbrev pub Ascending : List Keyed → Type 0
Ascending [] = Unit
Ascending (x ∷ []) = Unit
Ascending (x ∷ y ∷ ys) = (comes_before y x ≡ false) × Ascending (y ∷ ys)

comes_before_asym : (a b : Keyed) → comes_before a b ≡ true → comes_before b a ≡ false
unfolding comes_before eqb_num
comes_before_asym a b h = ground arith

pub insert_keyed-Ascending :
    (k : Keyed) (xs : List Keyed) → Ascending xs → Ascending (insert_keyed k xs)
unfolding insert_keyed
insert_keyed-Ascending k [] s = tt
insert_keyed-Ascending k (x ∷ []) s = elim (Bool-cases (comes_before k x)) [
  | inl e ↦ rw e (comes_before_asym k x e, tt)
  | inr e ↦ rw e (e, tt)
]
insert_keyed-Ascending k (x ∷ y ∷ ys) s = elim (Bool-cases (comes_before k x)) [
  | inl e ↦ rw e (comes_before_asym k x e, s)
  | inr e ↦ elim (Bool-cases (comes_before k y)) [
    | inl f ↦ rw (e, f) (e, (comes_before_asym k y f, s.1))
    | inr f ↦ rw (e, f) (s.0, rw f at (insert_keyed-Ascending k (y ∷ ys) s.1))
  ]
]

pub sort_keyed-Ascending : (ks : List Keyed) → Ascending (sort_keyed ks)
unfolding sort_keyed
sort_keyed-Ascending [] = tt
sort_keyed-Ascending (k ∷ ks) = insert_keyed-Ascending k (sort_keyed ks) (sort_keyed-Ascending ks)
