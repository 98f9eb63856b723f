-- ===== src/Replay/Reversible/Clips.antt =====
-- The mutators of a clip are taken back by the inverse that they capture.
use daw_project.Common.{
  ◌≤◌, String, ◌||◌, none, some, [], ◌≡◌, refl, arith, ap, Bool-cases, Option-cases, inl, inr,
  str_eq,
}
use daw_project.Num.{Num}
use daw_project.Schema.{Name, ClipDef, ProjectDef, or_else, is_musical_clip}
use daw_project.Undo.{InverseOp, ClipBounds, ClipTiming}
use daw_project.Document.{applied, ignored, find_clip, update_clip}
use daw_project.Document.DisplayName.{display_name, eqb_name}
use daw_project.Mutators.Clips
use daw_project.Mutators.Clips.{
  whole, bounded_length, bounds_of, with_fades, has_ticks, timing_of, with_timing,
}
use daw_project.Mutators.Clips.Undo.{
  bump_if-id, rename_clip_back, set_clip_start_back, set_clip_timing_back, set_clip_bounds_back,
  set_clip_fades_back, set_clip_scene_back,
}
use daw_project.Replay.{perform}
use daw_project.Replay.Reversible.{Reversible, BackTo}

module _ (fresh : String) (d : ProjectDef) where
  pub clip_name-BackTo :
      (t c : String) (n : Name)
      → Reversible (InverseOp.rename_clip t c n) d
      → BackTo fresh d (Clips.rename_clip t c n d)
  unfolding Clips.rename_clip perform
  clip_name-BackTo t c n r = elim (Option-cases (find_clip d t c)) [
    | inl e ↦ rw (e, Clips.rename_clip) tt
    | inr (cl, e) ↦ elim (Bool-cases (eqb_name (display_name n) (or_else cl.name []))) [
      | inl same ↦ rw (e, Clips.rename_clip, same) tt
      | inr differ ↦
          rw (e, Clips.rename_clip, differ)
            (_, rename_clip_back d t c cl e (display_name n) (r cl e) differ)
    ]
  ]

  pub bounds-BackTo :
      (t c : String) (b : ClipBounds)
      → Reversible (InverseOp.set_clip_bounds t c b) d
      → BackTo fresh d (Clips.set_clip_bounds t c b d)
  unfolding Clips.set_clip_bounds is_musical_clip perform
  bounds-BackTo t c b r = elim (Option-cases (find_clip d t c)) [
    | inl e ↦ rw (e, Clips.set_clip_bounds) tt
    | inr (cl, e) ↦
        let a = r cl e in
        rw (e, Clips.set_clip_bounds, is_musical_clip, a.0)
          (_, set_clip_bounds_back d t c cl e b a.0 a.1 a.2 a.3)
  ]

  pub start-BackTo :
      (t c : String) (s : Num)
      → Reversible (InverseOp.set_clip_start t c s) d
      → BackTo fresh d (Clips.set_clip_start t c s d)
  unfolding Clips.set_clip_start is_musical_clip perform
  start-BackTo t c s r = elim (Option-cases (find_clip d t c)) [
    | inl e ↦ rw (e, Clips.set_clip_start) tt
    | inr (cl, e) ↦
        let a = r cl e in
        rw (e, Clips.set_clip_start, is_musical_clip, a.0)
          (_, set_clip_start_back d t c cl e s _ a.0 a.1)
  ]

  timing_applied :
      (t c : String) (m : ClipTiming) (cl : ClipDef)
      → find_clip d t c ≡ some cl
      → 2 ≤ d.schema_version
      → Clips.set_clip_timing t c m d
        ≡ applied (InverseOp.set_clip_timing t c (timing_of cl)) (update_clip t c (with_timing m) d)
  unfolding Clips.set_clip_timing
  timing_applied t c m cl e v =
      rw (e, Clips.set_clip_timing)
        (ap
          (λ s.
            applied (InverseOp.set_clip_timing t c (timing_of cl))
              (update_clip t c (with_timing m) s))
          (bump_if-id (has_ticks m) d v))

  timing_ignored :
      (t c : String) (m : ClipTiming)
      → find_clip d t c ≡ none
      → Clips.set_clip_timing t c m d ≡ ignored
  unfolding Clips.set_clip_timing
  timing_ignored t c m e = rw (e, Clips.set_clip_timing) refl

  pub timing-BackTo :
      (t c : String) (m : ClipTiming)
      → Reversible (InverseOp.set_clip_timing t c m) d
      → BackTo fresh d (Clips.set_clip_timing t c m d)
  unfolding perform
  timing-BackTo t c m r = elim (Option-cases (find_clip d t c)) [
    | inl e ↦ rw (timing_ignored t c m e) tt
    | inr (cl, e) ↦
        let w = r.0 cl e in
        rw (timing_applied t c m cl e r.1)
          (_, set_clip_timing_back d t c cl e m w.0 w.1 w.2 w.3 w.4 r.1)
  ]

  pub fades-BackTo :
      (t c : String) (i o : Num)
      → Reversible (InverseOp.set_clip_fades t c i o) d
      → BackTo fresh d (Clips.set_clip_fades t c i o d)
  unfolding Clips.set_clip_fades perform
  fades-BackTo t c i o r = elim (Option-cases (find_clip d t c)) [
    | inl e ↦ rw (e, Clips.set_clip_fades) tt
    | inr (cl, e) ↦
        rw (e, Clips.set_clip_fades)
          (_, set_clip_fades_back d t c cl e i o _ _ (r cl e).0 (r cl e).1)
  ]

  pub scene-BackTo :
      (t c s : String)
      → Reversible (InverseOp.set_clip_scene t c s) d
      → BackTo fresh d (Clips.set_clip_scene t c s d)
  unfolding Clips.set_clip_scene perform
  scene-BackTo t c s r = elim (Option-cases (find_clip d t c)) [
    | inl e ↦ rw (e, Clips.set_clip_scene) tt
    | inr (cl, e) ↦ elim (Option-cases cl.scene_id) [
      | inl n ↦ rw (e, Clips.set_clip_scene, n) tt
      | inr (old, n) ↦ elim (Bool-cases (str_eq old "" || str_eq old s)) [
        | inl same ↦ rw (e, Clips.set_clip_scene, n, same) tt
        | inr differ ↦
            rw (e, Clips.set_clip_scene, n, differ)
              (_, set_clip_scene_back d t c cl e s old n r (ground (arith, differ)))
      ]
    ]
  ]
