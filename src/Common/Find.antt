-- ===== src/Common/Find.antt =====
-- Array access by a test, as `find`, `findIndex`, `splice` and the write through a found element:
-- each is about the first element that passes.
use daw_project.Common.{
  ℕ, zero, suc, ◌≡◌, refl, ◌∙◌, Bool, true, false, Option, none, some, List, [], ◌∷◌, arith,
  if◌then◌else◌, Bool-cases, inl, inr, All,
}

module _ {ℓ} {A : Type ℓ} where
  unfoldable pub find : (A → Bool) → List A → Option A
  find p [] = none
  find p (x ∷ xs) = if p x then some x else find p xs

  -- The first element that passes, with its index.
  unfoldable pub locate : (A → Bool) → List A → Option (ℕ × A)
  locate p [] = none
  locate p (x ∷ xs) =
      if p x
      then some (0, x)
      else (elim (locate p xs) [ none ↦ none | some (i, y) ↦ some (suc i, y) ])

  -- `xs.some(p)`
  unfoldable pub any : (A → Bool) → List A → Bool
  any p [] = false
  any p (x ∷ xs) = if p x then true else any p xs

  -- A write to the first element that passes; nothing where none does.
  unfoldable pub update_first : (A → Bool) → (A → A) → List A → List A
  update_first p f [] = []
  update_first p f (x ∷ xs) = if p x then f x ∷ xs else x ∷ update_first p f xs

  -- `i = xs.findIndex(p); if (i >= 0) xs.splice(i, 1)`
  unfoldable pub remove_first : (A → Bool) → List A → List A
  remove_first p [] = []
  remove_first p (x ∷ xs) = if p x then xs else x ∷ remove_first p xs

  -- `xs.filter((x) => !p(x))`
  unfoldable pub without : (A → Bool) → List A → List A
  without p [] = []
  without p (x ∷ xs) = let rest = without p xs in if p x then rest else x ∷ rest

  -- `xs.splice(i, 0, y)`: an index past the end inserts at the end.
  unfoldable pub insert_at : ℕ → A → List A → List A
  insert_at zero y xs = y ∷ xs
  insert_at (suc i) y [] = y ∷ []
  insert_at (suc i) y (x ∷ xs) = x ∷ insert_at i y xs

  -- `xs.splice(i, 1)`
  unfoldable pub erase_at : ℕ → List A → List A
  erase_at i [] = []
  erase_at zero (x ∷ xs) = xs
  erase_at (suc i) (x ∷ xs) = x ∷ erase_at i xs

module _ {ℓ} {A : Type ℓ} (p : A → Bool) where
  pub find-update_first :
      (f : A → A) (xs : List A) (a : A)
      → find p xs ≡ some a
      → p (f a) ≡ true
      → find p (update_first p f xs) ≡ some (f a)
  unfolding find update_first
  find-update_first f [] a h k = cc
  find-update_first f (x ∷ xs) a h k = ground (arith, find-update_first f xs a)

  -- A second write to the element that the first write left in place.
  pub update_first-update_first :
      (f g : A → A) (xs : List A) (a : A)
      → find p xs ≡ some a
      → p (f a) ≡ true
      → update_first p g (update_first p f xs) ≡ update_first p (λ x. g (f x)) xs
  unfolding find update_first
  update_first-update_first f g [] a h k = refl
  update_first-update_first f g (x ∷ xs) a h k = ground (arith, update_first-update_first f g xs a)

  -- Two writes that agree on the element found.
  pub update_first_congr :
      (f g : A → A) (xs : List A) (a : A)
      → find p xs ≡ some a
      → f a ≡ g a
      → update_first p f xs ≡ update_first p g xs
  unfolding find update_first
  update_first_congr f g [] a h k = refl
  update_first_congr f g (x ∷ xs) a h k = ground (arith, update_first_congr f g xs a)

  pub update_first-id : (xs : List A) → update_first p (λ x. x) xs ≡ xs
  unfolding update_first
  update_first-id [] = refl
  update_first-id (x ∷ xs) = ground (arith, update_first-id xs)

  -- A write that puts back what stood there.
  pub update_first_restore :
      (f g : A → A) (xs : List A) (a : A)
      → find p xs ≡ some a
      → p (f a) ≡ true
      → g (f a) ≡ a
      → update_first p g (update_first p f xs) ≡ xs
  update_first_restore f g xs a h k e =
      update_first-update_first f g xs a h k
      ∙ update_first_congr _ (λ x. x) xs a h e
      ∙ update_first-id xs

  pub find_passes : (xs : List A) (a : A) → find p xs ≡ some a → p a ≡ true
  unfolding find
  find_passes [] a h = cc
  find_passes (x ∷ xs) a h = ground (arith, find_passes xs a)

  pub All-find {κ} : (P : A → Type κ) (xs : List A) (a : A) → All P xs → find p xs ≡ some a → P a
  unfolding find
  All-find P [] a h e = cc
  All-find P (x ∷ xs) a h e = elim (Bool-cases (p x)) [
    | inl q ↦ let same : x ≡ a = ground arith in rw (← same) h.0
    | inr q ↦ All-find P xs a h.1 (ground arith)
  ]

  pub All-update_first {κ} :
      (P : A → Type κ) (f : A → A) (xs : List A)
      → ((x : A) → P x → P (f x))
      → All P xs
      → All P (update_first p f xs)
  unfolding update_first
  All-update_first P f [] k h = tt
  All-update_first P f (x ∷ xs) k h = elim (Bool-cases (p x)) [
    | inl e ↦ rw e (k x h.0, h.1)
    | inr e ↦ rw e (h.0, All-update_first P f xs k h.1)
  ]
