-- ===== src/Common/Slot.antt =====
-- Moving an element to a slot of the list that still holds it: what stands before the slot, without the
-- element, the element, and the rest.
use daw_project.Common.{
  ℕ, zero, suc, ◌-◌, ◌≤◌, ◌≡◌, refl, ◌∙◌, ap, sym, Bool, false, some, List, [], ◌∷◌, ◌++◌, ltb,
  length, take, drop, if◌then◌else◌, arith, take-append-drop,
}
use daw_project.Common.Find.{locate, any, remove_first, insert_at, without}

module _ {ℓ} {A : Type ℓ} (p : A → Bool) where
  without-append : (xs ys : List A) → without p (xs ++ ys) ≡ without p xs ++ without p ys
  unfolding without
  without-append [] ys = refl
  without-append (x ∷ xs) ys = ground (arith, without-append xs ys)

  without-none : (xs : List A) → any p xs ≡ false → without p xs ≡ xs
  unfolding without any
  without-none [] h = refl
  without-none (x ∷ xs) h = ground (arith, without-none xs)

  pub remove_first-without :
      (xs : List A) → any p (remove_first p xs) ≡ false → remove_first p xs ≡ without p xs
  unfolding without any remove_first
  remove_first-without [] h = refl
  remove_first-without (x ∷ xs) h = ground (arith, remove_first-without xs, without-none xs)

  insert_at-length : (a : A) (xs ys : List A) → insert_at (length xs) a (xs ++ ys) ≡ xs ++ a ∷ ys
  unfolding insert_at
  insert_at-length a [] ys = refl
  insert_at-length a (x ∷ xs) ys = ap (λ zs. x ∷ zs) (insert_at-length a xs ys)

  length-without_none :
      (xs : List A) (n : ℕ) → any p xs ≡ false → n ≤ length xs → length (without p (take n xs)) ≡ n
  unfolding without any
  length-without_none xs zero h l = refl
  length-without_none [] (suc n) h l = absurd (omega arith)
  length-without_none (x ∷ xs) (suc n) h l = ground (arith, length-without_none xs n)

  -- One element passes, at `src`: how many of the first `slot` do not.
  length-without :
      (xs : List A) (src slot : ℕ) (a : A)
      → locate p xs ≡ some (src, a)
      → any p (remove_first p xs) ≡ false
      → slot ≤ length xs
      → length (without p (take slot xs)) ≡ (if ltb src slot then slot - 1 else slot)
  unfolding without any remove_first locate
  length-without [] src slot a at once l = cc
  length-without (x ∷ xs) src zero a at once l = ground arith
  length-without (x ∷ xs) zero (suc slot) a at once l = ground (arith, length-without_none xs slot)
  length-without (x ∷ xs) (suc src) (suc slot) a at once l =
      ground (arith, length-without xs src slot a)

  -- A list without p the element, and with it at the slot of the whole list.
  pub insert_at_slot :
      (xs : List A) (src slot : ℕ) (a : A)
      → locate p xs ≡ some (src, a)
      → any p (remove_first p xs) ≡ false
      → slot ≤ length xs
      → insert_at (if ltb src slot then slot - 1 else slot) a (remove_first p xs)
        ≡ without p (take slot xs) ++ a ∷ without p (drop slot xs)
  insert_at_slot xs src slot a at once l =
      rw (remove_first-without xs once, ← length-without xs src slot a at once l)
        (ap (insert_at (length (without p (take slot xs))) a) (
            ap (without p) (sym (take-append-drop slot xs))
            ∙ without-append (take slot xs) (drop slot xs))
          ∙ insert_at-length a (without p (take slot xs)) (without p (drop slot xs)))
