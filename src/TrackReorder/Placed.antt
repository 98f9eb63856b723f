-- ===== src/TrackReorder/Placed.antt =====
-- What a drop of a track leaves to see.
use mathlib.Core.List.{map-append}
use daw_project.Common.{
  ℕ, suc, ◌-◌, ◌≤◌, ◌≡◌, refl, ◌∙◌, ap, sym, ◌||◌, ◌==◌, String, true, false, none, some, List, [],
  ◌∷◌, ◌++◌, map, ltb, length, get_elem?, take, drop, arith, if◌then◌else◌, length-map, Bool-cases,
  inl, inr, ◌⊎◌, str_eq_iff,
}
use daw_project.Common.Find.{any, locate, remove_first, insert_at, without}
use daw_project.Common.Slot.{insert_at_slot, remove_first-without}
use daw_project.Common.Splice.{insert_at-remove_first, locate_bound}
use daw_project.Num.{Num}
use daw_project.Schema.{TrackDef, ProjectDef}
use daw_project.Schema.Order.{Keyed, with_keys, insert_keyed, sort_keyed, track_of, ordered_tracks}
use daw_project.Sanitize.{finite}
use daw_project.Document.{track_is, update_track}
use daw_project.Mutators.Tracks.{with_order}
use daw_project.TrackReorder.{
  key_of, nothing, order, write_between, elem_before, writing_for, id_of,
}
use daw_project.TrackReorder.Insertion.{Distinct, Split, split, at_key}
use daw_project.TrackReorder.Fits.{Fits, insert_keyed-Fits, Spaced, Spaced-rest}
use daw_project.TrackReorder.Shown.{
  HasKey, key_of-HasKey, map-insert_at, any-others, remove_first-shown, locate-shown,
}
use daw_project.TrackReorder.Order.{Written, write_between-Written}

-- Shown are the tracks before the slot without the one that moves, it, and the others.
abbrev pub Placed : String → ℕ → List TrackDef → ProjectDef → Type 0
Placed id slot shown d =
    map id_of (ordered_tracks d)
    ≡ map id_of (without (track_is id) (take slot shown))
      ++ id ∷ map id_of (without (track_is id) (drop slot shown))

module _ (d : ProjectDef) (id : String) (slot : ℕ) (distinct : Distinct d.tracks)
    (there : any (track_is id) d.tracks ≡ true)
    (spaced : Spaced (sort_keyed (with_keys 0 d.tracks)))
    (l : slot ≤ length (ordered_tracks d)) where
  abbrev keys : List (String × Num)
  keys = key_of 0 d.tracks []

  parts : Split (HasKey keys) id 0 d.tracks
  parts = split (HasKey keys) id 0 d.tracks there distinct (key_of-HasKey 0 d.tracks [] distinct)

  abbrev moved : Keyed
  moved = parts.0

  abbrev rest : List Keyed
  rest = parts.1

  abbrev others : List TrackDef
  others = map track_of rest

  shown : ordered_tracks d ≡ map track_of (insert_keyed moved rest)
  unfolding ordered_tracks
  shown = ap (map track_of) parts.2

  is_moved : moved.track.id ≡ id
  is_moved = (str_eq_iff moved.track.id id).0 parts.4

  remove_first-others : remove_first (track_is id) (ordered_tracks d) ≡ others
  remove_first-others = rw shown (remove_first-shown id moved parts.4 rest parts.6)

  once : any (track_is id) (remove_first (track_is id) (ordered_tracks d)) ≡ false
  once = rw remove_first-others (any-others id rest parts.6)

  without-others : without (track_is id) (ordered_tracks d) ≡ others
  without-others =
      sym (remove_first-without (track_is id) (ordered_tracks d) once) ∙ remove_first-others

  found : (src : ℕ) × (locate (track_is id) (ordered_tracks d) ≡ some (src, moved.track))
  found = rw shown (locate-shown id moved parts.4 rest parts.6)

  abbrev src : ℕ
  src = found.0

  abbrev place : ℕ
  place = if ltb src slot then slot - 1 else slot

  place_bound : place ≤ length rest
  place_bound =
      let b = locate_bound (track_is id) (ordered_tracks d) src moved.track found.1 in
      let e : length (remove_first (track_is id) (ordered_tracks d)) ≡ length rest =
        ap length remove_first-others ∙ length-map rest track_of in
      ground (arith, b.0, b.1, e)

  -- The ids with the moved one at the place are those that the drop asks for.
  ids_at_place :
      insert_at place id (map id_of others)
      ≡ map id_of (without (track_is id) (take slot (ordered_tracks d)))
        ++ id ∷ map id_of (without (track_is id) (drop slot (ordered_tracks d)))
  ids_at_place =
      let all = ordered_tracks d in
      let before = without (track_is id) (take slot all) in
      let behind = without (track_is id) (drop slot all) in
      ap (λ i. insert_at place i (map id_of others)) (sym is_moved)
      ∙ sym (map-insert_at id_of place moved.track others)
      ∙ ap (λ ts. map id_of (insert_at place moved.track ts)) (sym remove_first-others)
      ∙ ap (map id_of) (insert_at_slot (track_is id) all src slot moved.track found.1 once l)
      ∙ map-append id_of before (moved.track ∷ behind)
      ∙ ap (λ i. map id_of before ++ i ∷ map id_of behind) is_moved

  at_place :
      (i : ℕ) (t : TrackDef)
      → t.id ≡ id
      → i ≡ place
      → map id_of (insert_at i t others)
        ≡ map id_of (without (track_is id) (take slot (ordered_tracks d)))
          ++ id ∷ map id_of (without (track_is id) (drop slot (ordered_tracks d)))
  at_place i t e p =
      map-insert_at id_of i t others
      ∙ ap (λ j. insert_at j t.id (map id_of others)) p
      ∙ ap (λ x. insert_at place x (map id_of others)) e
      ∙ ids_at_place

  placed :
      (v : Num)
      → Fits v place rest
      → Placed id slot (ordered_tracks d) (update_track id (with_order (some v)) d)
  unfolding ordered_tracks update_track
  placed v f =
      ap (λ ks. map id_of (map track_of ks))
        (parts.3 v ∙ insert_keyed-Fits (at_key v moved) place rest f)
      ∙ ap (map id_of) (map-insert_at track_of place (at_key v moved) rest)
      ∙ at_place place (with_order (some v) moved.track) is_moved refl

  stays : src ≡ place → Placed id slot (ordered_tracks d) d
  stays e =
      ap (map id_of) (
        sym (insert_at-remove_first (track_is id) (ordered_tracks d) src moved.track found.1)
        ∙ ap (insert_at src moved.track) remove_first-others)
      ∙ at_place src moved.track is_moved e

  stays_alone : rest ≡ [] → src ≡ place
  stays_alone e =
      let b = locate_bound (track_is id) (ordered_tracks d) src moved.track found.1 in
      omega (
        arith,
        place_bound,
        ap length e,
        ap length remove_first-others,
        length-map rest track_of,
        b,
      )

  spaced_rest : Spaced rest
  spaced_rest = Spaced-rest moved rest (rw parts.2 at spaced)

  -- What is written is nothing, where the track is alone, or an order that fits.
  writing-Written :
      Written keys
        (insert_at place id (map id_of others))
        rest
        place
        parts.7
        spaced_rest
        parts.8
        place_bound
        (write_between keys
          (insert_at place id (map id_of others))
          (elem_before others place)
          (get_elem? others place))
  writing-Written =
      write_between-Written keys (insert_at place id (map id_of others)) rest place parts.7
        spaced_rest parts.8 place_bound

  writing_for_lem : writing_for d id slot ≡ (
      if slot == src || slot == suc src
      then none
      else some (
          write_between keys
            (insert_at place id (map id_of others))
            (elem_before others place)
            (get_elem? others place)))
  unfolding writing_for
  writing_for_lem = rw (found.1, without-others, writing_for) refl

  moves_nothing : slot == src || slot == suc src ≡ true → src ≡ place
  moves_nothing h = ground arith

  -- What is written, and what is shown then.
  pub writing_for-Placed :
      ((writing_for d id slot ≡ none) × Placed id slot (ordered_tracks d) d)
      ⊎ ((writing_for d id slot ≡ some nothing) × Placed id slot (ordered_tracks d) d)
      ⊎ ((v : Num) × (writing_for d id slot ≡ some (order (finite v)))
          × Placed id slot (ordered_tracks d) (update_track id (with_order (some v)) d))
  writing_for-Placed = elim (Bool-cases (slot == src || slot == suc src)) [
    | inl e ↦ inl (writing_for_lem ∙ rw e refl, stays (moves_nothing e))
    | inr e ↦ elim writing-Written [
      | inl (w, alone) ↦ inr (inl (writing_for_lem ∙ rw (e, w) refl, stays (stays_alone alone)))
      | inr (v, w, f) ↦ inr (inr (v, writing_for_lem ∙ rw (e, w) refl, placed v f))
    ]
  ]
