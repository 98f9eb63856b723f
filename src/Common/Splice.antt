-- ===== src/Common/Splice.antt =====
-- Taking an element out of a list and putting it back where it stood.
use daw_project.Common.{
  ℕ, zero, suc, ◌≤◌, ◌≡◌, refl, ap, Bool, true, false, some, List, [], ◌∷◌, ◌++◌, arith, length,
}
use daw_project.Common.Find.{find, locate, any, remove_first, insert_at}

module _ {ℓ} {A : Type ℓ} (p : A → Bool) where
  pub insert_at-remove_first :
      (xs : List A) (i : ℕ) (a : A)
      → locate p xs ≡ some (i, a)
      → insert_at i a (remove_first p xs) ≡ xs
  unfolding locate insert_at remove_first
  insert_at-remove_first [] i a h = cc
  insert_at-remove_first (x ∷ xs) zero a h = ground arith
  insert_at-remove_first (x ∷ xs) (suc i) a h = ground (arith, insert_at-remove_first xs i a)

  pub locate_bound :
      (xs : List A) (i : ℕ) (a : A)
      → locate p xs ≡ some (i, a)
      → length xs ≡ suc (length (remove_first p xs)) × (i ≤ length (remove_first p xs))
  unfolding locate remove_first
  locate_bound [] i a h = cc
  locate_bound (x ∷ xs) zero a h = ground (arith, locate_bound xs zero a)
  locate_bound (x ∷ xs) (suc i) a h = ground (arith, locate_bound xs i a)

  pub locate_passes : (xs : List A) (i : ℕ) (a : A) → locate p xs ≡ some (i, a) → p a ≡ true
  unfolding locate
  locate_passes [] i a h = cc
  locate_passes (x ∷ xs) zero a h = ground arith
  locate_passes (x ∷ xs) (suc i) a h = ground (arith, locate_passes xs i a)

  module _ (a : A) (passes : p a ≡ true) where
    pub remove_first-insert_at :
        (i : ℕ) (xs : List A) → any p xs ≡ false → remove_first p (insert_at i a xs) ≡ xs
    unfolding any insert_at remove_first
    remove_first-insert_at zero xs h = ground arith
    remove_first-insert_at (suc i) [] h = ground arith
    remove_first-insert_at (suc i) (x ∷ xs) h = ground (arith, remove_first-insert_at i xs)

    pub locate-insert_at :
        (i : ℕ) (xs : List A)
        → any p xs ≡ false
        → i ≤ length xs
        → locate p (insert_at i a xs) ≡ some (i, a)
    unfolding any insert_at locate
    locate-insert_at zero xs h k = ground arith
    locate-insert_at (suc i) [] h k = absurd (omega arith)
    locate-insert_at (suc i) (x ∷ xs) h k = ground (arith, locate-insert_at i xs)

    pub remove_first-append : (xs : List A) → any p xs ≡ false → remove_first p (xs ++ a ∷ []) ≡ xs
    unfolding any remove_first
    remove_first-append [] h = ground arith
    remove_first-append (x ∷ xs) h = ground (arith, remove_first-append xs)

    pub find-append : (xs : List A) → any p xs ≡ false → find p (xs ++ a ∷ []) ≡ some a
    unfolding any find
    find-append [] h = ground arith
    find-append (x ∷ xs) h = ground (arith, find-append xs)

    pub length-insert_at : (i : ℕ) (xs : List A) → length (insert_at i a xs) ≡ suc (length xs)
    unfolding insert_at
    length-insert_at zero xs = refl
    length-insert_at (suc i) [] = refl
    length-insert_at (suc i) (x ∷ xs) = ap suc (length-insert_at i xs)
