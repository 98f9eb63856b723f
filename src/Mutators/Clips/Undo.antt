-- ===== src/Mutators/Clips/Undo.antt =====
-- The captured inverse of each clip mutator takes the document back, and captures the redo.
use mathlib.Core.Option
use daw_project.Common.{
  ◌≤◌, String, Bool, true, false, Option, none, some, [], ◌∷◌, ◌≡◌, ◌≢◌, refl, arith, ap, ◌∙◌, sym,
  str_eq, str_eq_iff,
}
use daw_project.Num.{Num, num}
use daw_project.Schema.{Name, ClipDef, ProjectDef, or_else, is_musical_clip, ensure_v2}
use daw_project.Undo.{
  ClipTiming, ClipBounds, rename_clip as op_rename_clip, set_clip_start as op_clip_start,
  set_clip_bounds as op_clip_bounds, set_clip_timing as op_clip_timing,
  set_clip_fades as op_clip_fades, set_clip_scene as op_clip_scene,
}
use daw_project.Document.{applied, find_clip, update_clip}
use daw_project.Document.Access.{
  schema_version-update_clip, find_clip-update_clip, update_clip_restore,
}
use daw_project.Document.DisplayName.{display_name, eqb_name, eqb_name_comm}
use daw_project.Mutators.Clips.{
  whole, timing_of, optional_name, with_clip_name, rename_clip, with_timing, bump_if, has_ticks,
  set_clip_timing, with_start, set_clip_start, bounded_length, with_bounds, bounds_of,
  set_clip_bounds, with_fades, set_clip_fades, with_scene, set_clip_scene,
}

-- The field holds a whole number of samples or ticks, or nothing.
abbrev pub WholeField : Option Num → Type 0
WholeField x = Option.map whole x ≡ x

-- A clip's name, where it has one, is trimmed, bounded and not empty.
abbrev pub CleanName : Option Name → Type 0
CleanName none = Unit
CleanName (some n) = (display_name n ≡ n) × (n ≢ [])

pub ensure_v2-id : (d : ProjectDef) → 2 ≤ d.schema_version → ensure_v2 d ≡ d
unfolding ensure_v2
ensure_v2-id d h = ground arith

pub bump_if-id : (b : Bool) (d : ProjectDef) → 2 ≤ d.schema_version → bump_if b d ≡ d
bump_if-id true d h = ensure_v2-id d h
bump_if-id false d h = refl

optional_name-before : (n : Option Name) → CleanName n → optional_name (or_else n []) ≡ n
optional_name-before none h = refl
optional_name-before (some []) h = absurd (h.1 refl)
optional_name-before (some (c ∷ cs)) h = refl

display_name-before : (n : Option Name) → CleanName n → display_name (or_else n []) ≡ or_else n []
unfolding display_name
display_name-before none h = refl
display_name-before (some n) h = h.0

optional_name-after : (n : Name) → or_else (optional_name n) [] ≡ n
optional_name-after [] = refl
optional_name-after (c ∷ cs) = refl

str_eq_sym : (a b : String) → str_eq a b ≡ false → str_eq b a ≡ false
str_eq_sym a b h = ground (arith, str_eq_iff a b, str_eq_iff b a)

module _ (d : ProjectDef) (tid id : String) (c : ClipDef)
    (found : find_clip d tid id ≡ some c) where
  pub rename_clip_back :
      (next : Name)
      → CleanName c.name
      → eqb_name next (or_else c.name []) ≡ false
      → rename_clip tid id (or_else c.name []) (update_clip tid id (with_clip_name next) d)
        ≡ applied (op_rename_clip tid id next) d
  unfolding rename_clip
  rename_clip_back next clean differ =
      rw
        (
          find_clip-update_clip d tid id (with_clip_name next) c found refl,
          rename_clip,
          display_name-before c.name clean,
          optional_name-after next,
          eqb_name_comm (or_else c.name []) next,
          differ,
        )
        (ap (applied (op_rename_clip tid id next)) (
          update_clip_restore d tid id (with_clip_name next) c found refl
            (with_clip_name (or_else c.name []))
            (ap (λ n. record c { name = n }) (optional_name-before c.name clean))))

  pub set_clip_start_back :
      (start old : Num)
      → c.start_tick ≡ none
      → some (whole old) ≡ c.start_sample
      → set_clip_start tid id old (update_clip tid id (with_start start) d)
        ≡ applied (op_clip_start tid id (whole start)) d
  unfolding set_clip_start is_musical_clip
  set_clip_start_back start old abs at =
      rw
        (
          find_clip-update_clip d tid id (with_start start) c found refl,
          set_clip_start,
          is_musical_clip,
          abs,
        )
        (ap (applied (op_clip_start tid id (whole start))) (
          update_clip_restore d tid id (with_start start) c found refl (with_start old)
            (ap (λ s. record c { start_sample = s }) at)))

  pub set_clip_timing_back :
      (timing : ClipTiming)
      → WholeField c.start_sample
      → WholeField c.length_samples
      → WholeField c.offset_samples
      → WholeField c.start_tick
      → WholeField c.length_tick
      → 2 ≤ d.schema_version
      → set_clip_timing tid id (timing_of c) (update_clip tid id (with_timing timing) d)
        ≡ applied (op_clip_timing tid id (timing_of (with_timing timing c))) d
  unfolding set_clip_timing
  set_clip_timing_back timing ws wl wo wt wn v =
      rw (find_clip-update_clip d tid id (with_timing timing) c found refl, set_clip_timing)
        (ap (applied (op_clip_timing tid id (timing_of (with_timing timing c)))) (
          ap (update_clip tid id (with_timing (timing_of c))) (
            bump_if-id (has_ticks (timing_of c)) (update_clip tid id (with_timing timing) d)
              (rw (schema_version-update_clip tid id (with_timing timing) d) v))
          ∙ update_clip_restore d tid id (with_timing timing) c found refl
              (with_timing (timing_of c))
              (λ i. record c {
                start_sample = ws i;
                length_samples = wl i;
                offset_samples = wo i;
                start_tick = wt i;
                length_tick = wn i;
              })))

  pub set_clip_bounds_back :
      (b : ClipBounds)
      → c.start_tick ≡ none
      → some (whole (bounds_of c).start_sample) ≡ c.start_sample
      → some (bounded_length (bounds_of c).length_samples) ≡ c.length_samples
      → some (whole (bounds_of c).offset_samples) ≡ c.offset_samples
      → set_clip_bounds tid id (bounds_of c) (update_clip tid id (with_bounds b) d)
        ≡ applied (op_clip_bounds tid id (bounds_of (with_bounds b c))) d
  unfolding set_clip_bounds is_musical_clip
  set_clip_bounds_back b abs ws wl wo =
      rw
        (
          find_clip-update_clip d tid id (with_bounds b) c found refl,
          set_clip_bounds,
          is_musical_clip,
          abs,
        )
        (ap (applied (op_clip_bounds tid id (bounds_of (with_bounds b c)))) (
          update_clip_restore d tid id (with_bounds b) c found refl (with_bounds (bounds_of c))
            (λ i. record c { start_sample = ws i; length_samples = wl i; offset_samples = wo i })))

  pub set_clip_fades_back :
      (fade_in fade_out old_in old_out : Num)
      → (with_fades old_in old_out c).fade_in_samples ≡ c.fade_in_samples
      → (with_fades old_in old_out c).fade_out_samples ≡ c.fade_out_samples
      → set_clip_fades tid id old_in old_out (update_clip tid id (with_fades fade_in fade_out) d)
        ≡ applied
            (op_clip_fades tid id
              (or_else (with_fades fade_in fade_out c).fade_in_samples (num 0))
              (or_else (with_fades fade_in fade_out c).fade_out_samples (num 0)))
            d
  unfolding set_clip_fades
  set_clip_fades_back fade_in fade_out old_in old_out hi ho =
      rw (find_clip-update_clip d tid id (with_fades fade_in fade_out) c found refl, set_clip_fades)
        (ap
          (applied (
            op_clip_fades tid id (or_else (with_fades fade_in fade_out c).fade_in_samples (num 0))
              (or_else (with_fades fade_in fade_out c).fade_out_samples (num 0))))
          (update_clip_restore d tid id (with_fades fade_in fade_out) c found refl
            (with_fades old_in old_out)
            (λ i. record c { fade_in_samples = hi i; fade_out_samples = ho i })))

  pub set_clip_scene_back :
      (scene old : String)
      → c.scene_id ≡ some old
      → str_eq scene "" ≡ false
      → str_eq old scene ≡ false
      → set_clip_scene tid id old (update_clip tid id (with_scene scene) d)
        ≡ applied (op_clip_scene tid id scene) d
  unfolding set_clip_scene
  set_clip_scene_back scene old at full differ =
      rw
        (
          find_clip-update_clip d tid id (with_scene scene) c found refl,
          set_clip_scene,
          full,
          str_eq_sym old scene differ,
        )
        (ap (applied (op_clip_scene tid id scene)) (
          update_clip_restore d tid id (with_scene scene) c found refl (with_scene old)
            (ap (λ s. record c { scene_id = s }) (sym at))))
