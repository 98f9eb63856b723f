-- ===== src/Replay/Reversible/Added.antt =====
-- A clip, a track or a device that was added is taken out again by the inverse captured.
use daw_project.Common.{
  ℕ, ◌≤◌, String, true, false, none, some, List, [], ◌∷◌, ◌++◌, ◌≡◌, refl, arith, ap, Bool-cases,
  Option-cases, inl, inr, leb, length, str_eq, str_eq_iff,
}
use daw_project.Common.Find.{any, insert_at}
use daw_project.Common.Splice.{
  remove_first-append, find-append, remove_first-insert_at, locate-insert_at,
}
use daw_project.Schema.{ClipDef, TrackDef, ProcessorDef, ProjectDef, is_musical_clip}
use daw_project.Undo.{InverseOp}
use daw_project.Document.{
  applied, ignored, find_track, find_clip, update_track, track_is, clip_is, processor_is,
}
use daw_project.Document.Access.{find_track-update_track, update_track_restore}
use daw_project.Mutators.Tracks
use daw_project.Mutators.Clips
use daw_project.Mutators.Clips.{with_clip, without_clip}
use daw_project.Mutators.Clips.Undo.{bump_if-id}
use daw_project.Mutators.Processors
use daw_project.Mutators.Processors.{place, with_processor, without_processor}
use daw_project.Replay.{perform}
use daw_project.Replay.Reversible.{Reversible, BackTo}

str_eq_refl : (a : String) → str_eq a a ≡ true
str_eq_refl a = (str_eq_iff a a).1 refl

insert_at-length :
    (p : ProcessorDef) (xs : List ProcessorDef) → xs ++ p ∷ [] ≡ insert_at (length xs) p xs
unfolding insert_at
insert_at-length p [] = refl
insert_at-length p (x ∷ xs) = ap (λ ys. x ∷ ys) (insert_at-length p xs)

-- An insertion into the chain, wherever the index is.
place-insert_at :
    (i : ℕ) (p : ProcessorDef) (chain : List ProcessorDef)
    → (k : ℕ) × (place (some i) p chain ≡ insert_at k p chain) × (k ≤ length chain)
place-insert_at i p chain = elim (Bool-cases (leb i (length chain))) [
  | inl e ↦ (i, rw e refl, ground arith)
  | inr e ↦ (length chain, rw e (insert_at-length p chain), omega arith)
]

module _ (fresh : String) (d : ProjectDef) where
  find_clip-with_clip :
      (t : String) (c : ClipDef) (track : TrackDef)
      → find_track d t ≡ some track
      → any (clip_is c.id) track.clips ≡ false
      → find_clip (update_track t (with_clip c) d) t c.id ≡ some c
  unfolding find_clip
  find_clip-with_clip t c track e new =
      rw (find_track-update_track d t (with_clip c) track e refl)
        (find-append (clip_is c.id) c (str_eq_refl c.id) track.clips new)

  add_clip_back :
      (t : String) (c : ClipDef) (track : TrackDef)
      → find_track d t ≡ some track
      → any (clip_is c.id) track.clips ≡ false
      → Clips.delete_clip t c.id (update_track t (with_clip c) d)
        ≡ applied (InverseOp.add_clip t c) d
  unfolding Clips.delete_clip
  add_clip_back t c track e new =
      rw (find_clip-with_clip t c track e new, Clips.delete_clip)
        (ap (applied (InverseOp.add_clip t c)) (
          update_track_restore d t (with_clip c) track e refl (without_clip c.id) (
            ap (λ cs. record track { clips = cs })
              (remove_first-append (clip_is c.id) c (str_eq_refl c.id) track.clips new))))

  add_clip_applied :
      (t : String) (c : ClipDef) (track : TrackDef)
      → find_track d t ≡ some track
      → 2 ≤ d.schema_version
      → Clips.add_clip t c d
        ≡ applied (InverseOp.delete_clip t c.id) (update_track t (with_clip c) d)
  unfolding Clips.add_clip
  add_clip_applied t c track e v =
      rw (e, Clips.add_clip)
        (ap (λ s. applied (InverseOp.delete_clip t c.id) (update_track t (with_clip c) s))
          (bump_if-id (is_musical_clip c) d v))

  add_clip_ignored :
      (t : String) (c : ClipDef) → find_track d t ≡ none → Clips.add_clip t c d ≡ ignored
  unfolding Clips.add_clip
  add_clip_ignored t c e = rw (e, Clips.add_clip) refl

  pub add_clip-BackTo :
      (t : String) (c : ClipDef)
      → Reversible (InverseOp.add_clip t c) d
      → BackTo fresh d (Clips.add_clip t c d)
  unfolding perform
  add_clip-BackTo t c r = elim (Option-cases (find_track d t)) [
    | inl e ↦ rw (add_clip_ignored t c e) tt
    | inr (track, e) ↦
        rw (add_clip_applied t c track e r.1) (_, add_clip_back t c track e (r.0 track e))
  ]

  added_track : TrackDef → ProjectDef
  added_track t = record d { tracks = d.tracks ++ t ∷ [] }

  add_track_back :
      (t : TrackDef)
      → any (track_is t.id) d.tracks ≡ false
      → Tracks.delete_track t.id (added_track t) ≡ applied (InverseOp.add_track t) d
  unfolding Tracks.delete_track find_track added_track
  add_track_back t new =
      rw (find-append (track_is t.id) t (str_eq_refl t.id) d.tracks new, Tracks.delete_track)
        (ap (λ ts. applied (InverseOp.add_track t) (record d { tracks = ts }))
          (remove_first-append (track_is t.id) t (str_eq_refl t.id) d.tracks new))

  pub add_track-BackTo :
      (t : TrackDef) → Reversible (InverseOp.add_track t) d → BackTo fresh d (Tracks.add_track t d)
  unfolding perform Tracks.add_track added_track
  add_track-BackTo t r = (_, add_track_back t r)

  add_processor_back :
      (t : String) (p : ProcessorDef) (i : ℕ) (track : TrackDef)
      → find_track d t ≡ some track
      → any (processor_is p.id) track.chain ≡ false
      → (again : InverseOp) × (Processors.remove_processor t p.id
            (update_track t (with_processor (some i) p) d)
          ≡ applied again d)
  unfolding Processors.remove_processor
  add_processor_back t p i track e new =
      let (k, same, bound) = place-insert_at i p track.chain in
      let passes = str_eq_refl p.id in
      rw
        (
          find_track-update_track d t (with_processor (some i) p) track e refl,
          Processors.remove_processor,
          same,
          locate-insert_at (processor_is p.id) p passes k track.chain new bound,
        )
        (
          _,
          ap (applied (InverseOp.add_processor t p k)) (
              update_track_restore d t (with_processor (some i) p) track e refl
                (without_processor p.id)
                (ap (λ c. record track { chain = c })
                  (rw same
                    (remove_first-insert_at (processor_is p.id) p passes k track.chain new)))),
        )

  pub add_processor-BackTo :
      (t : String) (p : ProcessorDef) (i : ℕ)
      → BackTo fresh d (Processors.add_processor t p (some i) d)
  unfolding perform Processors.add_processor
  add_processor-BackTo t p i = elim (Option-cases (find_track d t)) [
    | inl e ↦ rw (e, Processors.add_processor) tt
    | inr (track, e) ↦ elim (Bool-cases (any (processor_is p.id) track.chain)) [
      | inl there ↦ rw (e, Processors.add_processor, there) tt
      | inr new ↦ rw (e, Processors.add_processor, new) (add_processor_back t p i track e new)
    ]
  ]
