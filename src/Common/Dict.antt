-- ===== src/Common/Dict.antt =====
-- A `Map` keyed by texts: its entries in the order of insertion.
use daw_project.Common.{
  ◌≡◌, refl, ◌∙◌, ap, Bool, String, Option, none, some, List, [], ◌∷◌, All, arith, if◌then◌else◌,
  str_eq, str_eq_iff, Bool-cases, inl, inr,
}

module _ {ℓ} {V : Type ℓ} where
  unfoldable pub lookup : String → List (String × V) → Option V
  lookup k [] = none
  lookup k ((j, v) ∷ m) = if str_eq j k then some v else lookup k m

  -- `set`: a key that is there keeps its place.
  unfoldable pub insert : String → V → List (String × V) → List (String × V)
  insert k v [] = (k, v) ∷ []
  insert k v ((j, w) ∷ m) = if str_eq j k then (k, v) ∷ m else (j, w) ∷ insert k v m

  -- `delete`; a key stands once.
  unfoldable pub remove : String → List (String × V) → List (String × V)
  remove k [] = []
  remove k ((j, w) ∷ m) = if str_eq j k then remove k m else (j, w) ∷ remove k m

  pub lookup-insert :
      (k j : String) (v : V) (m : List (String × V))
      → lookup j (insert k v m) ≡ (if str_eq k j then some v else lookup j m)
  unfolding lookup insert
  lookup-insert k j v [] = refl
  lookup-insert k j v ((i, w) ∷ m) =
      ground (arith, str_eq_iff k j, str_eq_iff i k, str_eq_iff i j, lookup-insert k j v m)

  pub lookup-remove :
      (k j : String) (m : List (String × V))
      → lookup j (remove k m) ≡ (if str_eq k j then none else lookup j m)
  unfolding lookup remove
  lookup-remove k j [] = ground arith
  lookup-remove k j ((i, w) ∷ m) =
      ground (arith, str_eq_iff k j, str_eq_iff i k, str_eq_iff i j, lookup-remove k j m)

  module _ {κ} (P : String × V → Type κ) where
    pub All-insert :
        (k : String) (v : V) (m : List (String × V)) → P (k, v) → All P m → All P (insert k v m)
    unfolding insert
    All-insert k v [] p h = (p, tt)
    All-insert k v ((j, w) ∷ m) p h = elim (Bool-cases (str_eq j k)) [
      | inl e ↦ rw e (p, h.1)
      | inr e ↦ rw e (h.0, All-insert k v m p h.1)
    ]

    pub All-remove : (k : String) (m : List (String × V)) → All P m → All P (remove k m)
    unfolding remove
    All-remove k [] h = tt
    All-remove k ((j, w) ∷ m) h = elim (Bool-cases (str_eq j k)) [
      | inl e ↦ rw e (All-remove k m h.1)
      | inr e ↦ rw e (h.0, All-remove k m h.1)
    ]

  pub All-lookup {κ} :
      (P : String × V → Type κ) (k : String) (v : V) (m : List (String × V))
      → All P m
      → lookup k m ≡ some v
      → P (k, v)
  unfolding lookup
  All-lookup P k v [] h e = cc
  All-lookup P k v ((j, w) ∷ m) h e = elim (Bool-cases (str_eq j k)) [
    | inl q ↦
        let same : w ≡ v = ground arith in
        let key : j ≡ k = (str_eq_iff j k).0 q in rw (← same, ← key) h.0
    | inr q ↦ All-lookup P k v m h.1 (ground arith)
  ]

-- No key stands twice.
abbrev pub Distinct {ℓ} : {V : Type ℓ} → List (String × V) → Type ℓ
Distinct [] = Unit
Distinct ((k, v) ∷ m) = (lookup k m ≡ none) × Distinct m

module _ {ℓ} {V : Type ℓ} where
  -- The entries whose values pass.
  unfoldable pub keep : (V → Bool) → List (String × V) → List (String × V)
  keep p [] = []
  keep p ((k, v) ∷ m) = let rest = keep p m in if p v then (k, v) ∷ rest else rest

  abbrev pub if_passes : (V → Bool) → Option V → Option V
  if_passes p none = none
  if_passes p (some v) = if p v then some v else none

  pub lookup-keep :
      (p : V → Bool) (k : String) (m : List (String × V))
      → Distinct m
      → lookup k (keep p m) ≡ if_passes p (lookup k m)
  unfolding lookup keep
  lookup-keep p k [] d = refl
  lookup-keep p k ((j, v) ∷ m) d =
      ground (arith, str_eq_iff j k, ap (λ i. lookup i m), lookup-keep p k m d.1)

  pub insert-Distinct :
      (k : String) (v : V) (m : List (String × V)) → Distinct m → Distinct (insert k v m)
  unfolding lookup insert
  insert-Distinct k v [] d = (refl, tt)
  insert-Distinct k v ((j, w) ∷ m) d = elim (Bool-cases (str_eq j k)) [
    | inl e ↦ let same = (str_eq_iff j k).0 e in rw e (rw (← same) d.0, d.1)
    | inr e ↦ rw e (
      lookup-insert k j v m ∙ ground (arith, str_eq_iff j k, str_eq_iff k j, d.0),
      insert-Distinct k v m d.1,
    )
  ]

  pub keep-Distinct : (p : V → Bool) (m : List (String × V)) → Distinct m → Distinct (keep p m)
  unfolding keep
  keep-Distinct p [] d = tt
  keep-Distinct p ((j, v) ∷ m) d = elim (Bool-cases (p v)) [
    | inl e ↦ rw e (lookup-keep p j m d.1 ∙ rw (d.0) refl, keep-Distinct p m d.1)
    | inr e ↦ rw e (keep-Distinct p m d.1)
  ]

  pub remove-absent : (k : String) (m : List (String × V)) → lookup k m ≡ none → remove k m ≡ m
  unfolding lookup remove
  remove-absent k [] a = refl
  remove-absent k ((j, v) ∷ m) a = ground (arith, remove-absent k m)

  pub remove-Distinct : (k : String) (m : List (String × V)) → Distinct m → Distinct (remove k m)
  unfolding remove
  remove-Distinct k [] d = tt
  remove-Distinct k ((j, v) ∷ m) d = elim (Bool-cases (str_eq j k)) [
    | inl e ↦ rw e (remove-Distinct k m d.1)
    | inr e ↦ rw e (lookup-remove k j m ∙ ground (arith, d.0), remove-Distinct k m d.1)
  ]
