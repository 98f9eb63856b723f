-- ===== src/Document/Access.antt =====
-- Reading back, and putting back, what a write by id has changed.
use daw_project.Common.{String, true, some, ◌≡◌, refl, ◌∙◌, ap, Option-cases, inl, inr}
use daw_project.Common.Find.{
  find, update_first, find-update_first, update_first_restore, update_first-update_first,
  update_first_congr, update_first-id, find_passes,
}
use daw_project.Schema.{ClipDef, ProcessorDef, TrackDef, ProjectDef}
use daw_project.Document.{
  track_is, clip_is, processor_is, find_track, find_clip, find_processor, update_track, update_clip,
  update_processor,
}

module _ (d : ProjectDef) (id : String) (f : TrackDef → TrackDef) (t : TrackDef)
    (found : find_track d id ≡ some t) (keeps : (f t).id ≡ t.id) where
  track_passes : track_is id (f t) ≡ true
  unfolding find_track
  track_passes = rw keeps (find_passes (track_is id) d.tracks t found)

  pub find_track-update_track : find_track (update_track id f d) id ≡ some (f t)
  unfolding find_track update_track
  find_track-update_track = find-update_first (track_is id) f d.tracks t found track_passes

  pub update_track_restore :
      (g : TrackDef → TrackDef) → g (f t) ≡ t → update_track id g (update_track id f d) ≡ d
  unfolding find_track update_track
  update_track_restore g e =
      ap (λ ts. record d { tracks = ts })
        (update_first_restore (track_is id) f g d.tracks t found track_passes e)

  -- A second write that leaves on the track found what another first write would have left.
  pub update_track_overwrite :
      (g h : TrackDef → TrackDef)
      → g (f t) ≡ h t
      → update_track id g (update_track id f d) ≡ update_track id h d
  unfolding find_track update_track
  update_track_overwrite g h e =
      ap (λ ts. record d { tracks = ts })
        (update_first-update_first (track_is id) f g d.tracks t found track_passes
          ∙ update_first_congr (track_is id) (λ x. g (f x)) h d.tracks t found e)

pub update_track_same :
    (d : ProjectDef) (id : String) (g : TrackDef → TrackDef) (t : TrackDef)
    → find_track d id ≡ some t
    → g t ≡ t
    → update_track id g d ≡ d
unfolding find_track update_track
update_track_same d id g t found e =
    ap (λ ts. record d { tracks = ts })
      (update_first_congr (track_is id) g (λ x. x) d.tracks t found e
        ∙ update_first-id (track_is id) d.tracks)

find_clip-some :
    (d : ProjectDef) (track_id id : String) (c : ClipDef)
    → find_clip d track_id id ≡ some c
    → (t : TrackDef) × (find_track d track_id ≡ some t) × (find (clip_is id) t.clips ≡ some c)
unfolding find_clip
find_clip-some d track_id id c h = elim (Option-cases (find_track d track_id)) [
  | inl e ↦ cc (rw e at h)
  | inr (t, e) ↦ (t, e, rw e at h)
]

module _ (d : ProjectDef) (track_id id : String) (f : ClipDef → ClipDef) (c : ClipDef)
    (found : find_clip d track_id id ≡ some c) (keeps : (f c).id ≡ c.id) where
  pub find_clip-update_clip : find_clip (update_clip track_id id f d) track_id id ≡ some (f c)
  unfolding find_clip update_clip
  find_clip-update_clip =
      let (t, e, k) = find_clip-some d track_id id c found in
      rw
        (find_track-update_track d track_id
          (λ t. record t { clips = update_first (clip_is id) f t.clips }) t e refl)
        (find-update_first (clip_is id) f t.clips c k
          (rw keeps (find_passes (clip_is id) t.clips c k)))

  pub update_clip_restore :
      (g : ClipDef → ClipDef)
      → g (f c) ≡ c
      → update_clip track_id id g (update_clip track_id id f d) ≡ d
  unfolding update_clip
  update_clip_restore g r =
      let (t, e, k) = find_clip-some d track_id id c found in
      update_track_restore d track_id
        (λ t. record t { clips = update_first (clip_is id) f t.clips }) t e refl _
        (ap (λ cs. record t { clips = cs })
          (update_first_restore (clip_is id) f g t.clips c k
            (rw keeps (find_passes (clip_is id) t.clips c k)) r))

  -- A second write that leaves on the clip found what another first write would have left.
  pub update_clip_overwrite :
      (g h : ClipDef → ClipDef)
      → g (f c) ≡ h c
      → update_clip track_id id g (update_clip track_id id f d) ≡ update_clip track_id id h d
  unfolding update_clip
  update_clip_overwrite g h r =
      let (t, e, k) = find_clip-some d track_id id c found in
      update_track_overwrite d track_id
        (λ t. record t { clips = update_first (clip_is id) f t.clips }) t e refl _ _
        (ap (λ cs. record t { clips = cs })
          (update_first-update_first (clip_is id) f g t.clips c k
              (rw keeps (find_passes (clip_is id) t.clips c k))
            ∙ update_first_congr (clip_is id) (λ x. g (f x)) h t.clips c k r))

find_processor-some :
    (d : ProjectDef) (track_id id : String) (c : ProcessorDef)
    → find_processor d track_id id ≡ some c
    → (t : TrackDef) × (find_track d track_id ≡ some t) × (find (processor_is id) t.chain ≡ some c)
unfolding find_processor
find_processor-some d track_id id c h = elim (Option-cases (find_track d track_id)) [
  | inl e ↦ cc (rw e at h)
  | inr (t, e) ↦ (t, e, rw e at h)
]

module _ (d : ProjectDef) (track_id id : String) (f : ProcessorDef → ProcessorDef)
    (c : ProcessorDef) (found : find_processor d track_id id ≡ some c)
    (keeps : (f c).id ≡ c.id) where
  pub find_processor-update_processor :
      find_processor (update_processor track_id id f d) track_id id ≡ some (f c)
  unfolding find_processor update_processor
  find_processor-update_processor =
      let (t, e, k) = find_processor-some d track_id id c found in
      rw
        (find_track-update_track d track_id
          (λ t. record t { chain = update_first (processor_is id) f t.chain }) t e refl)
        (find-update_first (processor_is id) f t.chain c k
          (rw keeps (find_passes (processor_is id) t.chain c k)))

  pub update_processor_restore :
      (g : ProcessorDef → ProcessorDef)
      → g (f c) ≡ c
      → update_processor track_id id g (update_processor track_id id f d) ≡ d
  unfolding update_processor
  update_processor_restore g r =
      let (t, e, k) = find_processor-some d track_id id c found in
      update_track_restore d track_id
        (λ t. record t { chain = update_first (processor_is id) f t.chain }) t e refl _
        (ap (λ ps. record t { chain = ps })
          (update_first_restore (processor_is id) f g t.chain c k
            (rw keeps (find_passes (processor_is id) t.chain c k)) r))

pub schema_version-update_clip :
    (track_id id : String) (f : ClipDef → ClipDef) (d : ProjectDef)
    → (update_clip track_id id f d).schema_version ≡ d.schema_version
unfolding update_clip update_track
schema_version-update_clip track_id id f d = refl
