-- ===== src/Schema/Order/Shown.antt =====
-- `orderedTracks` shows every track once, by ascending order of display.
use mathlib.Core.List.{Perm}
use mathlib.Core.List.Perm
use mathlib.Core.Path.{subst}
use daw_project.Common.{
  ℕ, zero, suc, ◌+◌, ◌≤◌, ◌≡◌, refl, ◌∙◌, ap, arith, true, false, Option, none, some, List, [], ◌∷◌,
  map, ◌⊎◌, inl, inr, Bool-cases, get_elem?, length,
}
use daw_project.Common.Int.{ltb_ℤ}
use daw_project.Num.{Num, num, eqb_num}
use daw_project.Schema.{TrackDef, ProjectDef, or_else}
use daw_project.Schema.Order.{
  Keyed, with_keys, comes_before, insert_keyed, sort_keyed, track_of, ordered_tracks,
}
use daw_project.Schema.Order.Sorted.{Ascending, sort_keyed-Ascending}

abbrev pub place_of : Keyed → ℕ
place_of k = k.place

-- The numbers from i on, as many as asked for.
abbrev pub count : ℕ → ℕ → List ℕ
count i zero = []
count i (suc n) = i ∷ count (suc i) n

-- What the user gave as the order of a track, or else its place in the document.
abbrev shown_at : Option Num → ℕ → Num
shown_at none place = num place
shown_at (some order) place = order

-- Every entry has the track of the document at its place, and the key of that track.
abbrev pub AreEntries : List TrackDef → List Keyed → Type 0
AreEntries ts [] = Unit
AreEntries ts (k ∷ ks) =
    (get_elem? ts k.place ≡ some k.track)
    × (k.key ≡ shown_at k.track.order k.place)
    × AreEntries ts ks

-- Each has a smaller key than the next, or the same and no later place.
abbrev pub InOrder : List Keyed → Type 0
InOrder [] = Unit
InOrder (x ∷ []) = Unit
InOrder (x ∷ y ∷ ys) =
    ((ltb_ℤ x.key y.key ≡ true) ⊎ ((x.key ≡ y.key) × (x.place ≤ y.place))) × InOrder (y ∷ ys)

pair-InOrder :
    (x y : Keyed)
    → comes_before y x ≡ false
    → (ltb_ℤ x.key y.key ≡ true) ⊎ ((x.key ≡ y.key) × (x.place ≤ y.place))
unfolding comes_before eqb_num
pair-InOrder x y h = elim (Bool-cases (ltb_ℤ x.key y.key)) [
  | inl e ↦ inl e
  | inr e ↦ inr (ground arith, ground arith)
]

Ascending-InOrder : (ks : List Keyed) → Ascending ks → InOrder ks
Ascending-InOrder [] a = tt
Ascending-InOrder (x ∷ []) a = tt
Ascending-InOrder (x ∷ y ∷ ys) (h, a) = (pair-InOrder x y h, Ascending-InOrder (y ∷ ys) a)

insert-places :
    (k : Keyed) (xs : List Keyed)
    → Perm (map place_of (insert_keyed k xs)) (k.place ∷ map place_of xs)
unfolding insert_keyed
insert-places k [] = Perm.refl _
insert-places k (x ∷ xs) = elim (Bool-cases (comes_before k x)) [
  | inl e ↦ rw e (Perm.refl _)
  | inr e ↦ rw e (
      Perm.trans (Perm.cons x.place (insert-places k xs))
        (Perm.swap k.place x.place (map place_of xs)))
]

sort-places : (ks : List Keyed) → Perm (map place_of (sort_keyed ks)) (map place_of ks)
unfolding sort_keyed
sort-places [] = Perm.refl _
sort-places (k ∷ ks) =
    Perm.trans (insert-places k (sort_keyed ks)) (Perm.cons k.place (sort-places ks))

places-with_keys :
    (i : ℕ) (ts : List TrackDef) → map place_of (with_keys i ts) ≡ count i (length ts)
unfolding with_keys
places-with_keys i [] = refl
places-with_keys i (t ∷ ts) = ap (λ xs. i ∷ xs) (places-with_keys (suc i) ts)

insert-AreEntries :
    (ts : List TrackDef) (k : Keyed) (xs : List Keyed)
    → AreEntries ts (k ∷ xs)
    → AreEntries ts (insert_keyed k xs)
unfolding insert_keyed
insert-AreEntries ts k [] a = a
insert-AreEntries ts k (x ∷ xs) a = elim (Bool-cases (comes_before k x)) [
  | inl e ↦ rw e a
  | inr e ↦ rw e (a.2.0, a.2.1, insert-AreEntries ts k xs (a.0, a.1, a.2.2))
]

sort-AreEntries :
    (ts : List TrackDef) (ks : List Keyed) → AreEntries ts ks → AreEntries ts (sort_keyed ks)
unfolding sort_keyed
sort-AreEntries ts [] a = tt
sort-AreEntries ts (k ∷ ks) a =
    insert-AreEntries ts k (sort_keyed ks) (a.0, a.1, sort-AreEntries ts ks a.2)

or_else-shown : (o : Option Num) (i : ℕ) → or_else o (num i) ≡ shown_at o i
or_else-shown none i = refl
or_else-shown (some x) i = refl

with_keys-AreEntries :
    (all : List TrackDef) (i : ℕ) (ts : List TrackDef)
    → ((j : ℕ) → get_elem? all (j + i) ≡ get_elem? ts j)
    → AreEntries all (with_keys i ts)
unfolding with_keys
with_keys-AreEntries all i [] h = tt
with_keys-AreEntries all i (t ∷ ts) h = (
  ap (get_elem? all) (omega arith) ∙ h 0,
  or_else-shown t.order i,
  with_keys-AreEntries all (suc i) ts (λ j. ap (get_elem? all) (omega arith) ∙ h (suc j)),
)

-- The tracks shown are those of a list of entries, in its order: the entries are for the places of the
-- document, each place once; each has the track of the document at its place and, as its key, the
-- `order` of that track or else the place; and each has a smaller key than the next, or the same key
-- and no later place.
pub ordered_tracks-InOrder :
    (d : ProjectDef)
    → (ks : List Keyed) × (ordered_tracks d ≡ map track_of ks)
      × Perm (map place_of ks) (count 0 (length d.tracks))
      × AreEntries d.tracks ks
      × InOrder ks
unfolding ordered_tracks
ordered_tracks-InOrder d =
    let ks = with_keys 0 d.tracks in
    (
      sort_keyed ks,
      refl,
      subst (Perm (map place_of (sort_keyed ks))) (places-with_keys 0 d.tracks) (sort-places ks),
      sort-AreEntries d.tracks ks
          (with_keys-AreEntries d.tracks 0 d.tracks (λ j. ap (get_elem? d.tracks) (omega arith))),
      Ascending-InOrder (sort_keyed ks) (sort_keyed-Ascending ks),
    )
