-- ===== src/TrackReorder/Shown.antt =====
-- The tracks shown, with and without the one that moves, and the keys of its new neighbours.
use daw_project.Common.{
  ℕ, zero, suc, ◌≤◌, ◌≡◌, refl, ◌∙◌, ap, String, true, false, none, some, List, [], ◌∷◌, map,
  length, get_elem?, All, arith, str_eq_iff, Bool-cases, inl, inr,
}
use mathlib.Core.Option
use daw_project.Common.Dict.{lookup, insert, lookup-insert}
use daw_project.Common.Find.{any, locate, remove_first, insert_at}
use daw_project.Num.{Num, num}
use daw_project.Schema.{TrackDef, or_else}
use daw_project.Schema.Order.{Keyed, with_keys, insert_keyed, comes_before, track_of}
use daw_project.Document.{track_is}
use daw_project.TrackReorder.{key_of, elem_before}
use daw_project.TrackReorder.Insertion.{Distinct, OthersOnly}
use daw_project.TrackReorder.Fits.{key_before}

-- What the map of keys has for the track.
abbrev pub HasKey : List (String × Num) → Keyed → Type 0
HasKey keys x = lookup x.track.id keys ≡ some x.key

key_of-other :
    (id : String) (i : ℕ) (ts : List TrackDef) (keys : List (String × Num))
    → any (track_is id) ts ≡ false
    → lookup id (key_of i ts keys) ≡ lookup id keys
unfolding any key_of
key_of-other id i [] keys h = refl
key_of-other id i (t ∷ ts) keys h =
    let k = or_else t.order (num i) in
    key_of-other id (suc i) ts (insert t.id k keys) (ground arith)
    ∙ lookup-insert t.id id k keys
    ∙ ground arith

lookup-insert_self :
    (k : String) (v : Num) (keys : List (String × Num)) → lookup k (insert k v keys) ≡ some v
lookup-insert_self k v keys = lookup-insert k k v keys ∙ rw ((str_eq_iff k k).1 refl) refl

pub key_of-HasKey :
    (i : ℕ) (ts : List TrackDef) (keys : List (String × Num))
    → Distinct ts
    → All (HasKey (key_of i ts keys)) (with_keys i ts)
unfolding key_of with_keys
key_of-HasKey i [] keys d = tt
key_of-HasKey i (t ∷ ts) keys d =
    let k = or_else t.order (num i) in
    (
      key_of-other t.id (suc i) ts (insert t.id k keys) d.0 ∙ lookup-insert_self t.id k keys,
      key_of-HasKey (suc i) ts (insert t.id k keys) d.1,
    )

module _ {ℓ κ} {A : Type ℓ} {B : Type κ} (f : A → B) where
  pub map-insert_at :
      (i : ℕ) (a : A) (xs : List A) → map f (insert_at i a xs) ≡ insert_at i (f a) (map f xs)
  unfolding insert_at
  map-insert_at zero a xs = refl
  map-insert_at (suc i) a [] = refl
  map-insert_at (suc i) a (x ∷ xs) = ap (λ ys. f x ∷ ys) (map-insert_at i a xs)

  pub get_elem?-map : (xs : List A) (i : ℕ) → get_elem? (map f xs) i ≡ Option.map f (get_elem? xs i)
  get_elem?-map [] i = refl
  get_elem?-map (x ∷ xs) zero = refl
  get_elem?-map (x ∷ xs) (suc i) = get_elem?-map xs i

module _ (id : String) where
  pub any-others :
      (xs : List Keyed) → All (OthersOnly id) xs → any (track_is id) (map track_of xs) ≡ false
  unfolding any
  any-others [] h = refl
  any-others (x ∷ xs) h = rw (h.0) (any-others xs h.1)

  module _ (k : Keyed) (is_it : track_is id k.track ≡ true) where
    pub remove_first-shown :
        (xs : List Keyed)
        → All (OthersOnly id) xs
        → remove_first (track_is id) (map track_of (insert_keyed k xs)) ≡ map track_of xs
    unfolding remove_first insert_keyed
    remove_first-shown [] h = rw is_it refl
    remove_first-shown (x ∷ xs) h = elim (Bool-cases (comes_before k x)) [
      | inl e ↦ rw (e, is_it) refl
      | inr e ↦ rw (e, h.0) (ap (λ ts. x.track ∷ ts) (remove_first-shown xs h.1))
    ]

    pub locate-shown :
        (xs : List Keyed)
        → All (OthersOnly id) xs
        → (src : ℕ) × (locate (track_is id) (map track_of (insert_keyed k xs))
            ≡ some (src, k.track))
    unfolding locate insert_keyed
    locate-shown [] h = (0, rw is_it refl)
    locate-shown (x ∷ xs) h = elim (Bool-cases (comes_before k x)) [
      | inl e ↦ (0, rw (e, is_it) refl)
      | inr e ↦ let (src, at) = locate-shown xs h.1 in (suc src, rw (e, h.0, at) refl)
    ]

pub elem_before-map :
    (xs : List Keyed) (i : ℕ)
    → elem_before (map track_of xs) i ≡ Option.map track_of (key_before xs i)
unfolding elem_before
elem_before-map xs zero = refl
elem_before-map xs (suc i) = get_elem?-map track_of xs i

pub All-get :
    (P : Keyed → Type 0) (xs : List Keyed) (i : ℕ) (x : Keyed)
    → All P xs
    → get_elem? xs i ≡ some x
    → P x
All-get P [] i x h e = cc
All-get P (y ∷ ys) zero x h e = let same : y ≡ x = cc in rw (← same) h.0
All-get P (y ∷ ys) (suc i) x h e = All-get P ys i x h.1 e

pub All-before :
    (P : Keyed → Type 0) (xs : List Keyed) (i : ℕ) (x : Keyed)
    → All P xs
    → key_before xs i ≡ some x
    → P x
All-before P xs zero x h e = cc
All-before P xs (suc i) x h e = All-get P xs i x h e

pub no_neighbours :
    (xs : List Keyed) (i : ℕ)
    → i ≤ length xs
    → key_before xs i ≡ none
    → get_elem? xs i ≡ none
    → xs ≡ []
no_neighbours [] i l p q = refl
no_neighbours (x ∷ xs) zero l p q = cc
no_neighbours (x ∷ []) (suc zero) l p q = cc
no_neighbours (x ∷ []) (suc (suc i)) l p q = absurd (omega arith)
no_neighbours (x ∷ y ∷ ys) (suc zero) l p q = cc
no_neighbours (x ∷ y ∷ ys) (suc (suc i)) l p q =
    let e = no_neighbours (y ∷ ys) (suc i) (omega arith) p q in cc
