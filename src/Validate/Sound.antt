-- ===== src/Validate/Sound.antt =====
-- What a document without issues has.
use daw_project.Common.{
  ltb, leb, ◌≤◌, ◌<◌, ◌≡◌, refl, arith, String, Bool, true, false, List, [], ◌∷◌, ◌++◌, str_eq,
}
use daw_project.Common.Int.{◌≤ℤ◌}
use daw_project.Num.{num}
use daw_project.Schema.{TrackDef, ProjectDef, schema_version}
use daw_project.Validate.{
  Issue, unless, seen_id, id_issues, remember, within, track_fields_issues, clips_issues,
  clips_seen, chain_issues, tracks_issues, validate_document, track_id_empty, track_id_twice,
  version_below_1, version_unknown, rate_not_positive, gain_out_of_range,
}

-- No id of the tracks is empty, is among `seen` or comes up twice, and every gain is in its range.
abbrev pub TracksFrom : List String → List TrackDef → Type 0
TracksFrom seen [] = Unit
TracksFrom seen (t ∷ ts) =
    (str_eq t.id "" ≡ false)
    × (seen_id t.id seen ≡ false)
    × (num 0 ≤ℤ t.gain)
    × (t.gain ≤ℤ num 2)
    × TracksFrom (t.id ∷ seen) ts

append-nil-left : (xs ys : List Issue) → xs ++ ys ≡ [] → xs ≡ []
append-nil-left [] ys h = refl
append-nil-left (x ∷ xs) ys h = cc

append-nil-right : (xs ys : List Issue) → xs ++ ys ≡ [] → ys ≡ []
append-nil-right [] ys h = h
append-nil-right (x ∷ xs) ys h = cc

unless-nil : (b : Bool) (i : Issue) → unless b i ≡ [] → b ≡ true
unless-nil true i h = refl
unless-nil false i h = cc

id_issues-nil :
    (a b : Issue) (id : String) (seen : List String)
    → id_issues a b id seen ≡ []
    → (str_eq id "" ≡ false) × (seen_id id seen ≡ false)
unfolding id_issues
id_issues-nil a b id seen h = ground (arith, h)

remember-new :
    (id : String) (seen : List String)
    → str_eq id "" ≡ false
    → seen_id id seen ≡ false
    → remember id seen ≡ id ∷ seen
unfolding remember
remember-new id seen e f = rw (e, f) refl

gain-InRange : (t : TrackDef) → track_fields_issues t ≡ [] → (num 0 ≤ℤ t.gain) × (t.gain ≤ℤ num 2)
unfolding track_fields_issues
gain-InRange t h =
    let ok =
      unless-nil (within (num 0) (num 2) t.gain) gain_out_of_range
        (append-nil-left (unless (within (num 0) (num 2) t.gain) gain_out_of_range) _ h) in
    ground (arith, ok)

tracks_issues-nil :
    (seen clip_ids : List String) (ts : List TrackDef)
    → tracks_issues seen clip_ids ts ≡ []
    → TracksFrom seen ts
unfolding tracks_issues
tracks_issues-nil seen clip_ids [] h = tt
tracks_issues-nil seen clip_ids (t ∷ ts) h =
    let ids = id_issues track_id_empty track_id_twice t.id seen in
    let fields = track_fields_issues t in
    let clips = clips_issues clip_ids t.clips in
    let (e, f) = id_issues-nil track_id_empty track_id_twice t.id seen (append-nil-left ids _ h) in
    let a = append-nil-right ids _ h in
    let (lo, hi) = gain-InRange t (append-nil-left fields _ a) in
    let c =
      append-nil-right (chain_issues t.chain) _
        (append-nil-right clips _ (append-nil-right fields _ a)) in
    (
      e,
      f,
      lo,
      hi,
      tracks_issues-nil (t.id ∷ seen) (clips_seen clip_ids t.clips) ts
          (rw (remember-new t.id seen e f) at c),
    )

-- A document for which no issue is reported has a version from 1 to the one that is known, a
-- positive sample rate, no track with an empty id, no two tracks of one id and every track's gain
-- from 0 to 2.
pub validate_document_sound :
    (d : ProjectDef)
    → validate_document d ≡ []
    → (1 ≤ d.schema_version)
      × (d.schema_version ≤ schema_version)
      × (0 < d.sample_rate)
      × TracksFrom [] d.tracks
unfolding validate_document
validate_document_sound d h =
    let a = unless (leb 1 d.schema_version) version_below_1 in
    let b = unless (leb d.schema_version schema_version) version_unknown in
    let c = unless (ltb 0 d.sample_rate) rate_not_positive in
    let h1 = append-nil-right a _ h in
    let h2 = append-nil-right b _ h1 in
    let low = unless-nil (leb 1 d.schema_version) version_below_1 (append-nil-left a _ h) in
    let high =
      unless-nil (leb d.schema_version schema_version) version_unknown (append-nil-left b _ h1) in
    let rate = unless-nil (ltb 0 d.sample_rate) rate_not_positive (append-nil-left c _ h2) in
    (
      ground (arith, low),
      ground (arith, high),
      ground (arith, rate),
      tracks_issues-nil [] [] d.tracks (append-nil-right c _ h2),
    )
