-- ===== src/Tests/Names.antt =====
-- An instance of the theorem on the names of new clips, and runs.
use mathlib.Core.Option.{none-ne-some}
use daw_project.Ids.Uuid.{IsByte}
use daw_project.Common.{arith, ℕ, List, [], ◌∷◌, All, ◌≡◌, refl, none, some}
use daw_project.Num.{num}
use daw_project.Schema.{ClipDef}
use daw_project.Document.DisplayName.{trim, eqb_name}
use daw_project.Ids.{
  uuid, hex_text, change_byte, dashed, codes, uuid_run, hex_run, after_dash, is_number, join,
  strip_tail, without_prefix, split, next_parts, new_id, clip_stem, clip_display_name,
}
use daw_project.Ids.Shown.{clip_display_name-new_id}

abbrev drawn : List ℕ
drawn = 15 ∷ 143 ∷ 173 ∷ 91 ∷ 217 ∷ 203 ∷ 6 ∷ 159 ∷ 33 ∷ 101 ∷ 112 ∷ 134 ∷ 119 ∷ 40 ∷ 149 ∷ 14 ∷ []

drawn-IsByte : All IsByte drawn
drawn-IsByte = ground arith

abbrev kick : ClipDef
kick = record {
  id = "clip-kick-2b-0f8fad5b-d9cb-469f-a165-70867728950e";
  name = none;
  asset_hash = "h";
  start_sample = some (num 0);
  length_samples = some (num 4096);
  offset_samples = none;
  fade_in_samples = none;
  fade_out_samples = none;
  notes = none;
  scene_id = none;
  start_tick = none;
  length_tick = none;
}

clip_display_name-new_id_example : clip_display_name kick ≡ codes "kick-2b"
unfolding uuid hex_text change_byte dashed new_id uuid_run hex_run after_dash next_parts split
    is_number join trim eqb_name
clip_display_name-new_id_example =
    clip_display_name-new_id kick (codes "kick-2b") none drawn (λ v e. absurd (none-ne-some v e))
      refl drawn-IsByte refl refl refl

of_old : clip_stem (codes "clip-kick-1788012345678") ≡ codes "kick"
unfolding clip_stem join strip_tail split without_prefix eqb_name next_parts is_number
of_old = refl
