-- ===== src/Schema/Order.antt =====
-- The order in which tracks are shown, and the guards on the kind of a track,
-- web/src/document/schema.ts.
pub mod Sorted
pub mod Shown
use daw_project.Common.{
  ℕ, suc, ◌&&◌, ◌||◌, Bool, true, false, Option, none, some, List, [], ◌∷◌, map, ltb, if◌then◌else◌,
  String,
}
use daw_project.Common.Int.{ltb_ℤ}
use daw_project.Num.{Num, num, eqb_num}
use daw_project.Schema.{Name, TrackKind, TrackDef, ProjectDef, or_else}

-- `newId('track')` is the argument `id`.
unfoldable pub make_track_def : String → Name → Option TrackKind → TrackDef
make_track_def id name kind = record {
  id = id;
  name = name;
  gain = num 1;
  kind = kind;
  pan = none;
  order = none;
  clips = [];
  chain = [];
  automation = none;
}

unfoldable pub track_accepts_audio : TrackDef → Bool
track_accepts_audio t = elim t.kind [ some TrackKind.midi ↦ false | _ ↦ true ]

unfoldable pub track_accepts_midi : TrackDef → Bool
track_accepts_midi t = elim t.kind [ some TrackKind.audio ↦ false | _ ↦ true ]

-- A track with its key and its place in the list.
pub record Keyed : Type 0 where
  pub track : TrackDef
  pub key : Num
  pub place : ℕ

unfoldable pub with_keys : ℕ → List TrackDef → List Keyed
with_keys i [] = []
with_keys i (t ∷ ts) =
    record { track = t; key = or_else t.order (num i); place = i } ∷ with_keys (suc i) ts

-- `(a.key - b.key) || (a.i - b.i)` is negative.
unfoldable pub comes_before : Keyed → Keyed → Bool
comes_before a b = ltb_ℤ a.key b.key || eqb_num a.key b.key && ltb a.place b.place

-- `sort` as an insertion sort; the places are distinct, so that the order is strict.
unfoldable pub insert_keyed : Keyed → List Keyed → List Keyed
insert_keyed k [] = k ∷ []
insert_keyed k (x ∷ xs) = if comes_before k x then k ∷ x ∷ xs else x ∷ insert_keyed k xs

unfoldable pub sort_keyed : List Keyed → List Keyed
unfolding insert_keyed
sort_keyed [] = []
sort_keyed (k ∷ ks) = insert_keyed k (sort_keyed ks)

abbrev pub track_of : Keyed → TrackDef
track_of k = k.track

unfoldable pub ordered_tracks : ProjectDef → List TrackDef
unfolding with_keys sort_keyed
ordered_tracks doc = map track_of (sort_keyed (with_keys 0 doc.tracks))
