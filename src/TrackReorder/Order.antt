-- ===== src/TrackReorder/Order.antt =====
-- Where a dropped track is shown.
use mathlib.Core.Option
use daw_project.Common.{
  ℕ, zero, suc, ◌≤◌, ◌≡◌, refl, String, true, Option, some, List, [], map, length, get_elem?, All,
  arith, Option-cases, inl, inr, ◌⊎◌,
}
use daw_project.Common.Int.{pos, ◌+ℤ◌, ◌-ℤ◌, ltb_ℤ, +ℤ_parts, -ℤ_parts}
use daw_project.Num.{Num, num}
use daw_project.Schema.Order.{Keyed, track_of}
use daw_project.Schema.Order.Sorted.{Ascending}
use daw_project.Sanitize.{finite}
use daw_project.TrackReorder.{Writing, nothing, order, write_between, elem_before, middle}
use daw_project.TrackReorder.Fits.{
  Fits, key_before, Above, Below, neighbours-Fits, Spaced, Spaced-get_elem?, middle_between,
}
use daw_project.TrackReorder.Shown.{
  HasKey, elem_before-map, get_elem?-map, All-get, All-before, no_neighbours,
}

before_first : (k : Num) → ltb_ℤ (k -ℤ num 1) k ≡ true
before_first k = ground (arith, -ℤ_parts k (num 1))

after_last : (k : Num) → ltb_ℤ k (k +ℤ num 1) ≡ true
after_last k = ground (arith, +ℤ_parts k (num 1))

module _ (keys : List (String × Num)) (target : List String) where
  writing : Option Keyed → Option Keyed → Writing
  writing x y = write_between keys target (Option.map track_of x) (Option.map track_of y)

  writing-between :
      (x y : Keyed)
      → HasKey keys x
      → HasKey keys y
      → ltb_ℤ x.key y.key ≡ true
      → writing (some x) (some y) ≡ order (finite (middle x.key y.key))
  unfolding writing write_between
  writing-between x y p q h = rw (p, q, h) refl

  module _ (rest : List Keyed) (place : ℕ) (has : All (HasKey keys) rest) (spaced : Spaced rest)
      (asc : Ascending rest) (l : place ≤ length rest) where
    -- Either no other track is there and nothing is written, or an order that fits the place.
    abbrev pub Written : Writing → Type 0
    Written w =
        ((w ≡ nothing) × (rest ≡ [])) ⊎ ((v : Num) × (w ≡ order (finite v)) × Fits v place rest)

    fits :
        (v : Num) (w : Writing)
        → w ≡ order (finite v)
        → Above v (key_before rest place)
        → Below v (get_elem? rest place)
        → Written w
    fits v w e a b = inr (v, e, neighbours-Fits v place rest asc l a b)

    neighbours_spaced :
        (i : ℕ) (x y : Keyed)
        → key_before rest i ≡ some x
        → get_elem? rest i ≡ some y
        → (ltb_ℤ x.key (middle x.key y.key) ≡ true)
          × (ltb_ℤ (middle x.key y.key) y.key ≡ true)
          × (ltb_ℤ x.key y.key ≡ true)
    neighbours_spaced zero x y p q = cc
    neighbours_spaced (suc i) x y p q =
        let gap = Spaced-get_elem? rest i x y spaced p q in
        let m = middle_between x.key y.key gap in (m.0, m.1, ground (arith, +ℤ_parts x.key (pos 2)))

    writing-Written : Written (writing (key_before rest place) (get_elem? rest place))
    unfolding writing write_between
    writing-Written = elim (Option-cases (key_before rest place)) [
      | inl p ↦ elim (Option-cases (get_elem? rest place)) [
        | inl q ↦ inl (rw (p, q) refl, no_neighbours rest place l p q)
        | inr (y, q) ↦
            fits (y.key -ℤ num 1) (writing (key_before rest place) (get_elem? rest place))
              (rw (p, q, All-get (HasKey keys) rest place y has q) refl) (rw p tt)
              (rw q (before_first y.key))
      ]
      | inr (x, p) ↦ elim (Option-cases (get_elem? rest place)) [
        | inl q ↦
            fits (x.key +ℤ num 1) (writing (key_before rest place) (get_elem? rest place))
              (rw (p, q, All-before (HasKey keys) rest place x has p) refl)
              (rw p (after_last x.key)) (rw q tt)
        | inr (y, q) ↦
            let s = neighbours_spaced place x y p q in
            fits (middle x.key y.key) (writing (key_before rest place) (get_elem? rest place))
              (rw (p, q)
                (writing-between x y (All-before (HasKey keys) rest place x has p)
                  (All-get (HasKey keys) rest place y has q) s.2))
              (rw p s.0) (rw q s.1)
      ]
    ]

    pub write_between-Written : Written (
        write_between keys target
          (elem_before (map track_of rest) place)
          (get_elem? (map track_of rest) place))
    unfolding writing
    write_between-Written =
        rw (elem_before-map rest place, get_elem?-map track_of rest place) writing-Written
